-- ===== src/Net/Ne2000/Wait.antt =====
-- The waiting loops of net/ne2000.c and `ne2000_probe`.
use zythos.Base.{
  [], List, ℕ, zero, suc, ◌-◌, ◌%◌, ◌≤◌, ◌<◌, ◌≡◌, refl, sym, ap, ◌∙◌, inl, inr, Bool, true, false,
  not, none, some, ◌∷◌, arith, ltb, leb, if◌then◌else◌, Bool-cases,
}
use zythos.Ports.{Accesses, Machine, input}
use zythos.Input.Flags.{has_flag}
use zythos.Net.Ne2000.{
  setup_writes, ne_outs, ne_data, Ne2000, DeviceData, ne_isr, ne_reset, port_at, ne_in, ne_out,
  wait_isr, is_over, eth0, poll_rounds, ne2000_probe,
}

-- The accesses once the register has been read so many times.
abbrev pub polled : ℕ → ℕ → Accesses → Accesses
polled port zero io = io
polled port (suc k) io = polled port k (input port ∷ io)

-- Whether the next read of the register finds the flag.
abbrev pub is_ready : Machine → ℕ → ℕ → Accesses → Bool
is_ready machine port flag io = has_flag flag (machine port io % 256)

-- The flag is found at the read number `k`, counted from 0, and not before.
pub wait_found :
    (machine : Machine) (io_base flag n k : ℕ) (io : Accesses)
    → k ≤ n
    → ((i : ℕ)
        → i < k
        → is_ready machine (port_at io_base ne_isr) flag (polled (port_at io_base ne_isr) i io)
          ≡ false)
    → is_ready machine (port_at io_base ne_isr) flag (polled (port_at io_base ne_isr) k io) ≡ true
    → (wait_isr machine io_base flag n io).0 ≡ some (n - k)
unfolding wait_isr
wait_found machine io_base flag zero zero io le before now = rw now refl
wait_found machine io_base flag zero (suc k) io le before now = absurd (omega (arith, le))
wait_found machine io_base flag (suc n) zero io le before now = rw now (ap some (omega arith))
wait_found machine io_base flag (suc n) (suc k) io le before now =
    let first = before 0 (omega arith) in
    rw first (
      wait_found machine io_base flag n k _ (omega (arith, le))
        (λ i lt. before (suc i) (omega (arith, lt))) now
      ∙ ap some (omega arith))

pub wait_over :
    (machine : Machine) (io_base flag n : ℕ) (io : Accesses)
    → ((i : ℕ)
        → i ≤ n
        → is_ready machine (port_at io_base ne_isr) flag (polled (port_at io_base ne_isr) i io)
          ≡ false)
    → (wait_isr machine io_base flag n io).0 ≡ none
unfolding wait_isr
wait_over machine io_base flag zero io never = rw (never 0 (omega arith)) refl
wait_over machine io_base flag (suc n) io never =
    rw (never 0 (omega arith))
      (wait_over machine io_base flag n _ λ i le. never (suc i) (omega (arith, le)))

-- The accesses up to the read that finds the flag.
wait_accesses :
    (machine : Machine) (io_base flag n k : ℕ) (io : Accesses)
    → k ≤ n
    → ((i : ℕ)
        → i < k
        → is_ready machine (port_at io_base ne_isr) flag (polled (port_at io_base ne_isr) i io)
          ≡ false)
    → is_ready machine (port_at io_base ne_isr) flag (polled (port_at io_base ne_isr) k io) ≡ true
    → (wait_isr machine io_base flag n io).1 ≡ polled (port_at io_base ne_isr) (suc k) io
unfolding wait_isr
wait_accesses machine io_base flag zero zero io le before now = rw now refl
wait_accesses machine io_base flag zero (suc k) io le before now = absurd (omega (arith, le))
wait_accesses machine io_base flag (suc n) zero io le before now = rw now refl
wait_accesses machine io_base flag (suc n) (suc k) io le before now =
    let first = before 0 (omega arith) in
    rw first (
      wait_accesses machine io_base flag n k _ (omega (arith, le))
        (λ i lt. before (suc i) (omega (arith, lt))) now)

-- What `timeout <= 0` says after the loop.
timeout_lem :
    (machine : Machine) (io_base flag n k : ℕ) (io : Accesses)
    → ((i : ℕ)
        → i < k
        → is_ready machine (port_at io_base ne_isr) flag (polled (port_at io_base ne_isr) i io)
          ≡ false)
    → is_ready machine (port_at io_base ne_isr) flag (polled (port_at io_base ne_isr) k io) ≡ true
    → is_over (wait_isr machine io_base flag n io).0 ≡ not (ltb k n)
timeout_lem machine io_base flag n k io before now = elim (Bool-cases (leb k n)) [
  | inl le ↦
      rw (wait_found machine io_base flag n k io (ground (arith, le)) before now) (ground arith)
  | inr gt ↦
      let late : n < k = ground (arith, gt) in
      let out : ltb k n ≡ false = ground (arith, late) in
      rw (wait_over machine io_base flag n io (λ i le. before i (omega (arith, le, late))), out)
        refl
]

-- The accesses before the loop of `ne2000_probe`.
abbrev pub after_reset : Machine → ℕ → Accesses → Accesses
after_reset machine io_base io =
    let (value, seen) = ne_in machine io_base ne_reset io in ne_out io_base ne_reset value seen

-- What the data port answers when it is read after so many reads of it.
abbrev pub prom_byte : Machine → ℕ → Accesses → ℕ → ℕ
prom_byte machine io_base io i =
    machine (port_at io_base ne_data) (polled (port_at io_base ne_data) i io) % 256

-- The bytes 0, 2, 4, 6, 8 and 10 that the data port answers.
abbrev pub prom_address : Machine → ℕ → Accesses → List ℕ
prom_address machine io_base io =
    let byte = prom_byte machine io_base io in
    byte 0 ∷ byte 2 ∷ byte 4 ∷ byte 6 ∷ byte 8 ∷ byte 10 ∷ []

-- If the card shows the end of its reset at the read number `k` of its status, counted from 0, and not
-- before, then `ne2000_probe` succeeds exactly when `k` is below 10000. The device is registered then,
-- and its address, which `g_mac` keeps, is made of the answers number 0, 2, 4, 6, 8 and 10 of the data
-- port behind the settings. Else nothing is registered and `g_mac` stays.
pub ne2000_probe_lem :
    {R : Type 0} (machine : Machine) (netdev_register : DeviceData → R → R) (io_base k : ℕ)
    (s : Ne2000 R)
    → let start = after_reset machine io_base s.io in
      ((i : ℕ)
        → i < k
        → is_ready machine (port_at io_base ne_isr) 0x80 (polled (port_at io_base ne_isr) i start)
          ≡ false)
      → is_ready machine
          (port_at io_base ne_isr)
          0x80
          (polled (port_at io_base ne_isr) k (after_reset machine io_base s.io))
        ≡ true
      → let (found, after) = ne2000_probe machine netdev_register io_base s in
        let ready = polled (port_at io_base ne_isr) (suc k) (after_reset machine io_base s.io) in
        let address = prom_address machine io_base (ne_outs io_base setup_writes ready) in
        (found ≡ ltb k 10000)
        × (after.g_mac ≡ (if found then address else s.g_mac))
        × (after.registry ≡ (
            if found
            then netdev_register (record { name = eth0; mac = address }) s.registry
            else s.registry))
unfolding ne2000_probe poll_rounds
ne2000_probe_lem machine netdev_register io_base k s before now =
    let over = timeout_lem machine io_base 0x80 poll_rounds k _ before now in
    elim (Bool-cases (ltb k poll_rounds)) [
      | inl early ↦
          let e = over ∙ ap not early in
          let at =
            wait_accesses machine io_base 0x80 poll_rounds k _ (ground (arith, early)) before now in
          let answer =
            λ (io : Accesses). prom_address machine io_base (ne_outs io_base setup_writes io) in
          (
            rw (ne2000_probe, e) (sym early),
            rw (ne2000_probe, e) (ap answer at),
            rw (ne2000_probe, e)
                (ap (λ io. netdev_register (record { name = eth0; mac = answer io }) s.registry)
                  at),
          )
      | inr late ↦
          let e = over ∙ ap not late in
          (rw (ne2000_probe, e) (sym late), rw (ne2000_probe, e) refl, rw (ne2000_probe, e) refl)
    ]
