-- ===== src/Index/Added.antt =====
-- What `addVersion` changes: every version and every entry of the maps behind it, by where it comes from.
use frit.Base.{◌≡◌, refl, ◌⊎◌, inl, inr, List, [], ◌∷◌, Memᴰ, text_eq, arith, ◌==◌, Bool-cases}
use frit.Base.Strings.Laws.{eq_of_text_eq}
use frit.Planmeta.{Plan}
use frit.Index.{File, Version, Group, add_version, add_ref, carried, new_version}

-- A version that a file's ref was added to: an old one, or a new one of the file's.
abbrev pub IsCarry : Plan → File → List Version → Version → Type 0
IsCarry p f vs w =
    (v : Version) × (w ≡ carried f v) × (v.oid ≡ f.oid) × (Memᴰ v vs ⊎ (v ≡ new_version p f))

pub add_ref-mem :
    (p : Plan) (f : File) (w : Version) (vs : List Version)
    → Memᴰ w (add_ref p f vs)
    → Memᴰ w vs ⊎ IsCarry p f vs w
unfolding add_ref
add_ref-mem p f w [] (Memᴰ.head e) = inr (new_version p f, e, refl, inr refl)
add_ref-mem p f w [] (Memᴰ.tail m) = elim m [ ]
add_ref-mem p f w (v ∷ vs) m = elim (Bool-cases (text_eq v.oid f.oid)) [
  | inl t ↦ changed (eq_of_text_eq v.oid f.oid t) (rw t at m)
  | inr t ↦ behind (add_ref-mem p f w vs) (rw t at m)
]
  where
    changed : v.oid ≡ f.oid → Memᴰ w (carried f v ∷ vs) → Memᴰ w (v ∷ vs) ⊎ IsCarry p f (v ∷ vs) w
    changed o (Memᴰ.head e) = inr (v, e, o, inl (Memᴰ.head refl))
    changed o (Memᴰ.tail n) = inl (Memᴰ.tail n)

    behind :
        (Memᴰ w (add_ref p f vs) → Memᴰ w vs ⊎ IsCarry p f vs w)
        → Memᴰ w (v ∷ add_ref p f vs)
        → Memᴰ w (v ∷ vs) ⊎ IsCarry p f (v ∷ vs) w
    behind ih (Memᴰ.head e) = inl (Memᴰ.head e)
    behind ih (Memᴰ.tail n) = elim (ih n) [
      | inl k ↦ inl (Memᴰ.tail k)
      | inr (u, e, o, inl k) ↦ inr (u, e, o, inl (Memᴰ.tail k))
      | inr (u, e, o, inr k) ↦ inr (u, e, o, inr k)
    ]

abbrev pub with_file : Plan → File → Group → Group
with_file p f g = record g { versions = add_ref p f g.versions }

abbrev pub IsGrown : Plan → File → List Group → Group → Type 0
IsGrown p f gs h =
    (g : Group) × (h ≡ with_file p f g)
    × (g.id ≡ p.id)
    × (Memᴰ g gs ⊎ (g ≡ record { id = p.id; versions = [] }))

pub add_version-mem :
    (p : Plan) (f : File) (h : Group) (gs : List Group)
    → Memᴰ h (add_version p f gs)
    → Memᴰ h gs ⊎ IsGrown p f gs h
unfolding add_version
add_version-mem p f h [] (Memᴰ.head e) =
    inr (record { id = p.id; versions = [] }, e, refl, inr refl)
add_version-mem p f h [] (Memᴰ.tail m) = elim m [ ]
add_version-mem p f h (g ∷ gs) m = elim (Bool-cases (g.id == p.id)) [
  | inl t ↦ changed (ground arith) (rw t at m)
  | inr t ↦ behind (add_version-mem p f h gs) (rw t at m)
]
  where
    changed : g.id ≡ p.id → Memᴰ h (with_file p f g ∷ gs) → Memᴰ h (g ∷ gs) ⊎ IsGrown p f (g ∷ gs) h
    changed o (Memᴰ.head e) = inr (g, e, o, inl (Memᴰ.head refl))
    changed o (Memᴰ.tail n) = inl (Memᴰ.tail n)

    behind :
        (Memᴰ h (add_version p f gs) → Memᴰ h gs ⊎ IsGrown p f gs h)
        → Memᴰ h (g ∷ add_version p f gs)
        → Memᴰ h (g ∷ gs) ⊎ IsGrown p f (g ∷ gs) h
    behind ih (Memᴰ.head e) = inl (Memᴰ.head e)
    behind ih (Memᴰ.tail n) = elim (ih n) [
      | inl k ↦ inl (Memᴰ.tail k)
      | inr (u, e, o, inl k) ↦ inr (u, e, o, inl (Memᴰ.tail k))
      | inr (u, e, o, inr k) ↦ inr (u, e, o, inr k)
    ]
