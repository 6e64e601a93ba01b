-- ===== src/Mnemonic/SameEntropy.antt =====
-- Which accepted phrases have the same entropy (src/keystonecrypto/mnemonic.py).
use keystone_crypto.Prelude.{◌≡◌, sym, ap, ◌∙◌}
use mathlib.Core.Logic.{◌↔◌}
use keystone_crypto.Errors.{ok, ok-injective}
use keystone_crypto.Text.{Str}
use keystone_crypto.Unicode.{Unicode, IsUnicode, split, join}
use keystone_crypto.Unicode.Split.{split-join, split-AreWords}
use keystone_crypto.Hashes.{Hashes}
use keystone_crypto.SecretBytes.{SecretBytes, Value}
use keystone_crypto.Mnemonic.{Mnemonic, from_entropy, from_phrase, entropy}
use keystone_crypto.Mnemonic.Accepted.{SpellsEntropy, from_phrase-SpellsEntropy}

module _ (h : Hashes) (u : Unicode) where
  entropy_words : (m n : Mnemonic) → split u m.phrase ≡ split u n.phrase → entropy u m ≡ entropy u n
  unfolding entropy
  entropy_words m n e = rw e

  -- The words of an accepted phrase come back when they are joined by single spaces.
  split_again : IsUnicode u → (m : Mnemonic) → split u (join (split u m.phrase)) ≡ split u m.phrase
  split_again u_laws m = split-join u u_laws (split u m.phrase) (split-AreWords u m.phrase)

  words_of_entropy :
      IsUnicode u
      → (p q : Str) (m n : Mnemonic) → from_phrase h u p ≡ ok m
      → from_phrase h u q ≡ ok n
      → entropy u m ≡ entropy u n
      → split u m.phrase ≡ split u n.phrase
  words_of_entropy laws p q m n accepted_m accepted_n e =
      let s : SpellsEntropy h u m = (from_phrase-SpellsEntropy h u p m accepted_m).1 in
      let t : SpellsEntropy h u n = (from_phrase-SpellsEntropy h u q n accepted_n).1 in
      let secrets : s.secret ≡ t.secret = ok-injective (sym s.read ∙ e ∙ t.read) in
      let phrases : join (split u m.phrase) ≡ join (split u n.phrase) =
        ap (λ (x : Mnemonic). x.phrase)
          (ok-injective (
            sym s.written
            ∙ ap (λ (x : SecretBytes). from_entropy h (Value.secret x)) secrets
            ∙ t.written)) in
      sym (split_again laws m) ∙ ap (split u) phrases ∙ split_again laws n

  -- Two phrases that `from_phrase` accepts have the same entropy exactly if they have the same words in
  -- the same order, whatever the spaces between them: no two lists of words stand for the same entropy.
  -- The Unicode tables follow the standard.
  pub same_entropy_iff :
      IsUnicode u
      → (p q : Str) (m n : Mnemonic) → from_phrase h u p ≡ ok m
      → from_phrase h u q ≡ ok n
      → (entropy u m ≡ entropy u n) ↔ (split u m.phrase ≡ split u n.phrase)
  same_entropy_iff laws p q m n accepted_m accepted_n =
      (words_of_entropy laws p q m n accepted_m accepted_n, entropy_words m n)
