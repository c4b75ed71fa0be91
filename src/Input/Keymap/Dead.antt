-- ===== src/Input/Keymap/Dead.antt =====
-- The dead keys of input/keymap.c.
use zythos.Base.{
  ℕ, ◌≡◌, refl, sym, ap, ◌∙◌, ◌≢◌, inl, inr, Bool, true, false, not, ◌&&◌, ◌||◌, [], arith, leb,
  ◌==◌, if◌then◌else◌, Bool-cases, get_or,
}
use zythos.Input.MoreKeycodes.{key_max}
use zythos.Input.Flags.{has_flag}
use zythos.Input.Keymap.{
  Keymap, KeymapResult, g_layouts, entries_at, level, is_unused, produce, make_result,
  keymap_compose, keymap_translate_keycode,
}

-- The early returns and the rest.
abbrev sieve : Bool → Bool → ℕ → Bool → Keymap → KeymapResult × Keymap
sieve outside unused cp is_dead s =
    if outside
    then (make_result 0 false, s)
    else if unused
    then (make_result 0 false, s)
    else produce cp is_dead s

-- `keymap_translate_keycode` with the layout's part of it apart.
abbrev parts : ℕ → ℕ → ℕ → Keymap → KeymapResult × Keymap
parts keycode mods current s =
    let e = entries_at (get_or g_layouts current []) keycode in
    let (cp, bit) = level e mods in
    sieve ((keycode == 0) || leb key_max keycode) (is_unused e) cp (has_flag bit e.dead_mask) s

translate-parts : (k m : ℕ) (s : Keymap) → keymap_translate_keycode k m s ≡ parts k m s.current s
unfolding keymap_translate_keycode
translate-parts k m s = refl

-- Whether a result is dead, and which key is then remembered, does not depend on what was remembered.
not_dead :
    (cp : ℕ) (d : Bool) (s : Keymap)
    → (d && not (cp == 0)) ≡ false
    → (produce cp d s).0.is_dead ≡ true
    → ⊥
not_dead cp d s alive e = elim (Bool-cases (not (s.active_dead == 0) && not (cp == 0))) [
  | inl pending ↦ cc (rw (alive, pending) at e)
  | inr idle ↦ cc (rw (alive, idle) at e)
]

sieve-dead :
    (g u : Bool) (cp : ℕ) (d : Bool) (s t : Keymap)
    → (sieve g u cp d s).0.is_dead ≡ true
    → (cp ≢ 0)
      × ((sieve g u cp d s).1 ≡ record s { active_dead = cp })
      × (sieve g u cp d t ≡ (make_result 0 true, record t { active_dead = cp }))
sieve-dead true u cp d s t e = absurd (cc e)
sieve-dead false true cp d s t e = absurd (cc e)
sieve-dead false false cp d s t e = elim (Bool-cases (d && not (cp == 0))) [
  | inl dead ↦ (ground (arith, dead), rw dead refl, rw dead refl)
  | inr alive ↦ absurd (not_dead cp d s alive e)
]

-- A key that has a character of its own, after a dead key.
sieve-next :
    (g u : Bool) (cp : ℕ) (d : Bool) (s : Keymap)
    → s.active_dead ≢ 0
    → let plain = (sieve g u cp d (record s { active_dead = 0 })).0 in
      plain.is_dead ≡ false
      → plain.codepoint ≢ 0
      → let both = keymap_compose s.active_dead plain.codepoint in
        sieve g u cp d s ≡ (
          make_result (if both == 0 then plain.codepoint else both) false,
          record s { active_dead = 0 },
        )
sieve-next true u cp d s pending alive ne = absurd (ne refl)
sieve-next false true cp d s pending alive ne = absurd (ne refl)
sieve-next false false cp d s pending alive ne = elim (Bool-cases (d && not (cp == 0))) [
  | inl dead ↦ absurd (cc (rw dead at alive))
  | inr living ↦
      let shown : cp ≢ 0 = rw living at ne in
      let both : (not (s.active_dead == 0) && not (cp == 0)) ≡ true =
        ground (arith, pending, shown) in
      rw (living, both) refl
]

pub dead_again :
    (k m : ℕ) (s t : Keymap)
    → s.current ≡ t.current
    → (keymap_translate_keycode k m s).0.is_dead ≡ true
    → (dead : ℕ) × (dead ≢ 0)
      × (keymap_translate_keycode k m s ≡ (make_result 0 true, record s { active_dead = dead }))
      × (keymap_translate_keycode k m t ≡ (make_result 0 true, record t { active_dead = dead }))
dead_again k m s t same e =
    let entry = entries_at (get_or g_layouts s.current []) k in
    let (cp, bit) = level entry m in
    let both = λ (u : Keymap).
      sieve-dead ((k == 0) || leb key_max k) (is_unused entry) cp (has_flag bit entry.dead_mask) s u
        (ap (λ r. r.0.is_dead) (sym (translate-parts k m s)) ∙ e) in
    (
      cp,
      (both s).0,
      translate-parts k m s ∙ (both s).2,
      translate-parts k m t ∙ ap (λ c. parts k m c t) (sym same) ∙ (both t).2,
    )

next-composes :
    (k m : ℕ) (t : Keymap)
    → t.active_dead ≢ 0
    → let plain = (keymap_translate_keycode k m (record t { active_dead = 0 })).0 in
      plain.is_dead ≡ false
      → plain.codepoint ≢ 0
      → let both = keymap_compose t.active_dead plain.codepoint in
        keymap_translate_keycode k m t ≡ (
          make_result (if both == 0 then plain.codepoint else both) false,
          record t { active_dead = 0 },
        )
unfolding keymap_translate_keycode
next-composes k m t pending alive ne =
    let e = entries_at (get_or g_layouts t.current []) k in
    let (cp, bit) = level e m in
    sieve-next ((k == 0) || leb key_max k) (is_unused e) cp (has_flag bit e.dead_mask) t pending
      alive ne

-- After a dead key, the next key that has a character and is not dead itself gives the character that
-- the compose table has for the two, and its own character if the table has none; after it no dead key
-- is left and the layout is the one before.
pub dead_key-composes :
    (k m k' m' : ℕ) (s : Keymap)
    → (keymap_translate_keycode k m s).0.is_dead ≡ true
    → let t = (keymap_translate_keycode k m s).1 in
      let plain = (keymap_translate_keycode k' m' (record t { active_dead = 0 })).0 in
      plain.is_dead ≡ false
      → plain.codepoint ≢ 0
      → let both = keymap_compose t.active_dead plain.codepoint in
        (t.active_dead ≢ 0)
        × (keymap_translate_keycode k' m' t ≡ (
          make_result (if both == 0 then plain.codepoint else both) false,
          record s { active_dead = 0 },
        ))
dead_key-composes k m k' m' s e alive ne =
    let (dead, some_dead, run, _) = dead_again k m s s refl e in
    let t = (keymap_translate_keycode k m s).1 in
    let pending : t.active_dead ≢ 0 = λ z. some_dead (sym (ap (λ r. r.1.active_dead) run) ∙ z) in
    let layout : t.current ≡ s.current = ap (λ r. r.1.current) run in
    (
      pending,
      next-composes k' m' t pending alive ne
          ∙ ap
              (λ c.
                let plain = (keymap_translate_keycode k' m' (record t { active_dead = 0 })).0 in
                let both = keymap_compose t.active_dead plain.codepoint in
                (
                  make_result (if both == 0 then plain.codepoint else both) false,
                  record t { current = c; active_dead = 0 },
                ))
              layout,
    )
