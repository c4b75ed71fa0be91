-- ===== src/Ports.antt =====
-- The instructions `inb` and `outb`. What the hardware answers is a function of the port and of all the
-- accesses before.
use zythos.Base.{ℕ, ◌%◌, List, [], ◌∷◌, ◌++◌, ◌==◌, if◌then◌else◌}

pub data Access : Type 0 where
  input : ℕ → Access
  output : ℕ → ℕ → Access

-- The latest access comes first.
abbrev pub Accesses : Type 0
Accesses = List Access

-- What a port answers.
abbrev pub Machine : Type 0
Machine = ℕ → Accesses → ℕ

abbrev pub inb : Machine → ℕ → Accesses → ℕ × Accesses
inb machine port done = (machine port done % 256, input port ∷ done)

abbrev pub outb : ℕ → ℕ → Accesses → Accesses
outb port value done = output port value ∷ done

-- Several writes, in their order.
abbrev pub outs : List (ℕ × ℕ) → Accesses → Accesses
outs [] done = done
outs (w ∷ ws) done = outs ws (outb w.0 w.1 done)

-- The bytes written to a port, in their order.
abbrev pub written : ℕ → Accesses → List ℕ
written port [] = []
written port (input p ∷ done) = written port done
written port (output p value ∷ done) =
    if p == port then written port done ++ value ∷ [] else written port done

-- The last value written to a port, `start` if there is none.
abbrev pub last_written : ℕ → ℕ → Accesses → ℕ
last_written start port [] = start
last_written start port (input p ∷ done) = last_written start port done
last_written start port (output p value ∷ done) =
    if p == port then value else last_written start port done
