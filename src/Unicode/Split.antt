-- ===== src/Unicode/Split.antt =====
-- Splitting what was joined.
use keystone_crypto.Prelude.{
  ◌≡◌, ◌≢◌, refl, sym, ap, ◌∙◌, List, [], ◌∷◌, ◌++◌, false, All, All-append, Bool-cases, inl, inr,
}
use mathlib.Core.List.{append-nil, append_assoc}
use keystone_crypto.Text.{Str}
use keystone_crypto.Unicode.{Unicode, IsUnicode, emit, split_from, split, join}

module _ (u : Unicode) where
  abbrev pub NoSpaces : Str → Type 0
  NoSpaces = All (λ c. u.is_space c ≡ false)

  split_from-append :
      (word w rest : Str)
      → NoSpaces w
      → split_from u word (w ++ rest) ≡ split_from u (word ++ w) rest
  unfolding split_from
  split_from-append word [] rest h = ap (λ (t : Str). split_from u t rest) (sym (append-nil word))
  split_from-append word (c ∷ w) rest (hc, hw) = rw hc (
      split_from-append (word ++ c ∷ []) w rest hw
      ∙ ap (λ (t : Str). split_from u t rest) (append_assoc word (c ∷ []) w))

  emit_word : (w : Str) (ws : List Str) → w ≢ [] → emit w ws ≡ w ∷ ws
  unfolding emit
  emit_word [] ws h = absurd (h refl)
  emit_word (c ∷ w) ws h = refl

  space_ends :
      (word s : Str) → IsUnicode u → split_from u word (32 ∷ s) ≡ emit word (split_from u [] s)
  unfolding split_from
  space_ends word s laws = rw laws.space_is_space

  abbrev pub AreWords : List Str → Type 0
  AreWords = All (λ w. NoSpaces w × (w ≢ []))

  -- Words that hold no space come back when their line is split.
  pub split-join : (laws : IsUnicode u) (ws : List Str) → AreWords ws → split u (join ws) ≡ ws
  unfolding split join
  split-join laws [] h = unfold split_from emit in refl
  split-join laws (w ∷ []) ((hw, ne), _) =
      ap (split_from u []) (sym (append-nil w))
      ∙ split_from-append [] w [] hw
      ∙ unfold split_from in emit_word w [] ne
  split-join laws (w ∷ v ∷ ws) ((hw, ne), hs) =
      split_from-append [] w (32 ∷ join (v ∷ ws)) hw
      ∙ space_ends w (join (v ∷ ws)) laws
      ∙ emit_word w (split_from u [] (join (v ∷ ws))) ne
      ∙ ap (λ (t : List Str). w ∷ t) (split-join laws (v ∷ ws) hs)

  emit-AreWords : (w : Str) (ws : List Str) → NoSpaces w → AreWords ws → AreWords (emit w ws)
  unfolding emit
  emit-AreWords [] ws h hs = hs
  emit-AreWords (c ∷ w) ws h hs = ((h, λ e. cons_nil e), hs)
    where
      cons_nil : c ∷ w ≡ [] → ⊥
      cons_nil e = cc

  split_from-AreWords : (word s : Str) → NoSpaces word → AreWords (split_from u word s)
  unfolding split_from
  split_from-AreWords word [] h = emit-AreWords word [] h tt
  split_from-AreWords word (c ∷ s) h = elim (Bool-cases (u.is_space c)) [
    | inl space ↦ rw space (emit-AreWords word (split_from u [] s) h (split_from-AreWords [] s tt))
    | inr letter ↦ rw letter (
        split_from-AreWords (word ++ c ∷ []) s
          (All-append (λ d. u.is_space d ≡ false) word (c ∷ []) h (letter, tt)))
  ]

  -- What `split` returns are words that are not empty and hold no space.
  pub split-AreWords : (s : Str) → AreWords (split u s)
  unfolding split
  split-AreWords s = split_from-AreWords [] s tt
