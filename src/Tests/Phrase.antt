-- ===== src/Tests/Phrase.antt =====
-- Runs of `mnemonic.py`, on the phrase of sixteen bytes of entropy.
use keystone_crypto.Prelude.{
  ◌<◌, All-replicate, length-replicate, ◌≡◌, refl, true, some, get_elem?, length, arith,
}
use mathlib.Core.Logic.{◌↔◌}
use keystone_crypto.Errors.{ok}
use keystone_crypto.Text.{codes}
use keystone_crypto.Unicode.{split}
use keystone_crypto.SecretBytes.{Value}
use keystone_crypto.Bytes.{pos, equal}
use keystone_crypto.Words.{word_list, word_to_index, find_index}
use keystone_crypto.Words.Laws.{word_to_index-word_list}
use keystone_crypto.Mnemonic.{Mnemonic, from_entropy, from_phrase, entropy, valid_count}
use keystone_crypto.Mnemonic.RoundTrip.{
  phrase_of, from_entropy_lem, from_phrase_lem, from_phrase-from_entropy,
}
use keystone_crypto.Mnemonic.Accepted.{SpellsEntropy, from_phrase-SpellsEntropy}
use keystone_crypto.Mnemonic.{generate}
use keystone_crypto.Mnemonic.Generated.{from_phrase-generate}
use keystone_crypto.Mnemonic.SameEntropy.{same_entropy_iff}
use keystone_crypto.Tests.Libraries.{
  toy_hashes, toy_hashes-IsHashes, toy_unicode, toy_unicode-IsUnicode,
}
use keystone_crypto.Tests.Setting.{sevens, entropy_16, entropy_16-AreBytes}
use keystone_crypto.SecretBytes.{SecretBytes}
use keystone_crypto.Unicode.{IsAscii}
use keystone_crypto.Mnemonic.{seed}
use keystone_crypto.Mnemonic.Seed.{seed_ascii}

abbrev pub phrase_16 : Mnemonic
phrase_16 =
    phrase_of toy_hashes toy_hashes-IsHashes toy_unicode toy_unicode-IsUnicode entropy_16 4 refl
      (omega arith) (omega arith) entropy_16-AreBytes

pub from_entropy-phrase_16 :
    from_entropy toy_hashes (Value.secret (record { buf = entropy_16 })) ≡ ok phrase_16
from_entropy-phrase_16 =
    from_entropy_lem toy_hashes toy_hashes-IsHashes toy_unicode toy_unicode-IsUnicode entropy_16 4
      refl (omega arith) (omega arith) entropy_16-AreBytes

twelve : valid_count 12 ≡ true
unfolding valid_count
twelve = refl

pub from_phrase-phrase_16 : from_phrase toy_hashes toy_unicode phrase_16.phrase ≡ ok phrase_16
from_phrase-phrase_16 =
    from_phrase_lem toy_hashes toy_hashes-IsHashes toy_unicode toy_unicode-IsUnicode entropy_16 4
      refl (omega arith) (omega arith) entropy_16-AreBytes twelve

from_phrase-from_entropy_example :
    (m : Mnemonic) × (from_entropy toy_hashes (Value.secret (record { buf = entropy_16 })) ≡ ok m)
    × (length (split toy_unicode m.phrase) ≡ 12)
    × (from_phrase toy_hashes toy_unicode m.phrase ≡ ok m)
    × (entropy toy_unicode m ≡ ok (record { buf = entropy_16 }))
from_phrase-from_entropy_example =
    from_phrase-from_entropy toy_hashes toy_hashes-IsHashes toy_unicode toy_unicode-IsUnicode
      entropy_16 4 refl (omega arith) (omega arith) entropy_16-AreBytes

from_phrase-SpellsEntropy_example :
    (phrase_16.phrase ≡ toy_unicode.nfkd phrase_16.phrase)
    × SpellsEntropy toy_hashes toy_unicode phrase_16
from_phrase-SpellsEntropy_example =
    from_phrase-SpellsEntropy toy_hashes toy_unicode phrase_16.phrase phrase_16
      from_phrase-phrase_16

abbrev generated :
    (m : Mnemonic) × (generate toy_hashes sevens (pos 160) ≡ ok m)
    × (length (split toy_unicode m.phrase) ≡ 15)
    × (from_phrase toy_hashes toy_unicode m.phrase ≡ ok m)
    × (entropy toy_unicode m ≡ ok (record { buf = sevens 20 }))
generated =
    from_phrase-generate toy_hashes toy_hashes-IsHashes toy_unicode toy_unicode-IsUnicode sevens
      (λ n. length-replicate n 7) (λ n. All-replicate (λ d. d < 256) n 7 (omega arith)) 5
      (omega arith) (omega arith)

same_entropy_iff_example :
    (entropy toy_unicode phrase_16 ≡ entropy toy_unicode generated.0)
    ↔ (split toy_unicode phrase_16.phrase ≡ split toy_unicode generated.0.phrase)
same_entropy_iff_example =
    same_entropy_iff toy_hashes toy_unicode toy_unicode-IsUnicode phrase_16.phrase
      generated.0.phrase phrase_16 generated.0 from_phrase-phrase_16 generated.3

word_to_index-word_list_example :
    (word_to_index (codes "zoo") ≡ some 2047) ↔ (get_elem? word_list 2047 ≡ some (codes "zoo"))
word_to_index-word_list_example = word_to_index-word_list 2047 (codes "zoo")

zoo : word_to_index (codes "zoo") ≡ some 2047
unfolding word_to_index find_index word_list equal
zoo = refl

abbrev plain_phrase : Mnemonic
plain_phrase = record { phrase = codes "legal winner thank" }

plain-IsAscii : IsAscii plain_phrase.phrase
plain-IsAscii = ground arith

passphrase-IsAscii : IsAscii (codes "TREZOR")
passphrase-IsAscii = ground arith

seed_ascii_example :
    (s : SecretBytes) × (seed toy_unicode toy_hashes plain_phrase (codes "TREZOR") ≡ ok s)
    × (s.buf
        ≡ toy_hashes.pbkdf2_sha512 (codes "legal winner thank") (codes "mnemonicTREZOR") 2048 64)
    × (length s.buf ≡ 64)
seed_ascii_example =
    seed_ascii toy_hashes toy_hashes-IsHashes toy_unicode toy_unicode-IsUnicode plain_phrase
      (codes "TREZOR") plain-IsAscii passphrase-IsAscii
