-- ===== src/Prelude/Sort.antt =====
-- sort.Strings: the strings of a list in bytewise order.
use mathlib.Core.List.{Perm}
use mathlib.Core.List.Perm
use wintermute.Prelude.{◌≡◌, refl, ◌⊎◌, inl, inr, true, false, List, [], ◌∷◌, arith, if◌then◌else◌}
use wintermute.Prelude.Str.{Str, ltb_str}

insert_sorted : Str → List Str → List Str
insert_sorted s [] = s ∷ []
insert_sorted s (t ∷ ts) = if ltb_str t s then t ∷ insert_sorted s ts else s ∷ t ∷ ts

unfoldable pub sort_strings : List Str → List Str
unfolding insert_sorted
sort_strings [] = []
sort_strings (s ∷ ss) = insert_sorted s (sort_strings ss)

-- Each string stands before none that is smaller.
abbrev pub IsSorted : List Str → Type 0
IsSorted [] = Unit
IsSorted (s ∷ []) = Unit
IsSorted (s ∷ t ∷ ts) = (ltb_str t s ≡ false) × IsSorted (t ∷ ts)

pub ltb_str_asymm : (s t : Str) → ltb_str s t ≡ true → ltb_str t s ≡ false
unfolding ltb_str
ltb_str_asymm [] [] h = cc
ltb_str_asymm [] (b ∷ t) h = refl
ltb_str_asymm (a ∷ s) [] h = cc
ltb_str_asymm (a ∷ s) (b ∷ t) h = ground (arith, ltb_str_asymm s t)

pub ltb_str_cotrans :
    (s u t : Str) → ltb_str s t ≡ true → (ltb_str s u ≡ true) ⊎ (ltb_str u t ≡ true)
unfolding ltb_str
ltb_str_cotrans [] [] [] h = cc
ltb_str_cotrans [] [] (c ∷ t) h = inr refl
ltb_str_cotrans [] (b ∷ u) [] h = cc
ltb_str_cotrans [] (b ∷ u) (c ∷ t) h = inl refl
ltb_str_cotrans (a ∷ s) u [] h = cc
ltb_str_cotrans (a ∷ s) [] (c ∷ t) h = inr refl
ltb_str_cotrans (a ∷ s) (b ∷ u) (c ∷ t) h = ground (arith, ltb_str_cotrans s u t)

insert_sorted-IsSorted : (s : Str) (ts : List Str) → IsSorted ts → IsSorted (insert_sorted s ts)
unfolding insert_sorted
insert_sorted-IsSorted s [] h = tt
insert_sorted-IsSorted s (t ∷ []) h = ground (arith, ltb_str_asymm t s)
insert_sorted-IsSorted s (t ∷ u ∷ ts) h =
    ground (arith, ltb_str_asymm t s, insert_sorted-IsSorted s (u ∷ ts) h.1)

pub sort_strings-IsSorted : (ss : List Str) → IsSorted (sort_strings ss)
unfolding sort_strings
sort_strings-IsSorted [] = tt
sort_strings-IsSorted (s ∷ ss) =
    insert_sorted-IsSorted s (sort_strings ss) (sort_strings-IsSorted ss)

insert_sorted-perm : (s : Str) (ts : List Str) → Perm (insert_sorted s ts) (s ∷ ts)
unfolding insert_sorted
insert_sorted-perm s [] = Perm.refl (s ∷ [])
insert_sorted-perm s (t ∷ ts) =
    elim (ltb_str t s)
      as (λ b. Perm (if b then t ∷ insert_sorted s ts else s ∷ t ∷ ts) (s ∷ t ∷ ts)) [
        | true ↦ Perm.trans (Perm.cons t (insert_sorted-perm s ts)) (Perm.swap s t ts)
        | false ↦ Perm.refl (s ∷ t ∷ ts)
      ]

pub sort_strings-perm : (ss : List Str) → Perm (sort_strings ss) ss
unfolding sort_strings
sort_strings-perm [] = Perm.refl []
sort_strings-perm (s ∷ ss) =
    Perm.trans (insert_sorted-perm s (sort_strings ss)) (Perm.cons s (sort_strings-perm ss))
