-- ===== src/Lib.antt =====
-- KeystoneCrypto, a library for wallet keys: recovery phrases, encrypted keystores, key derivation and
-- signatures. This library models its Python package, src/keystonecrypto, module by module, as
-- functions, and states what they promise one another.
--
-- Parts and files. An exception is a value of `Error`, and what may raise returns a `Result` (Errors,
-- exceptions.py). Bytes are lists of numbers below 256 and texts are lists of code points (Bytes, Text,
-- Unicode, Bits, Digits: what the modules use of Python's own types and of `struct`).
--   * secret_bytes.py, class SecretBytes: SecretBytes. A method that writes the buffer returns the new
--     object.
--   * entropy.py, generate_entropy: Entropy.
--   * kdf.py, Argon2Params and derive_key: Kdf.
--   * aead.py, encrypt and decrypt: Aead.
--   * envelope.py, class Envelope: Envelope. `pack` builds the blob from Kdf and Aead, `unpack` takes it
--     apart; Envelope/Sections, Plaintext and Blob say where each field stands.
--   * mnemonic.py: Wordlist and Words hold the 2048 words and the dictionary, Mnemonic the class.
--   * derivation.py: Derivation has the paths, the extended keys and derive_from_seed, Base58 has
--     _b58encode.
--   * signing.py: Signing has Signature, the three signers and the DER helpers.
--   * keystore.py: Keystore has Account, Wallet, KeystoreContext and Keystore, which call all of
--     the above; Keystore/Session has sequences of calls. `unlock` and `create` return the
--     password's buffer beside their result, as they leave it.
--   * Tests runs the code with small libraries in place of those that are parameters.
--
-- Parameters. The third-party libraries are records of functions with laws beside them, which state
-- what their documentation says: AesGcm and IsAesGcm (cryptography), Argon2, IsArgon2 and
-- IsSelfContained (argon2), Secp256k1, IsSecp256k1 and SignsDigests (coincurve), Ed25519 and
-- IsEd25519 (cryptography), Hashes and IsHashes (hashlib, hmac), Unicode and IsUnicode (the
-- character tables and NFKD, on ASCII). Random sources are functions from a length to bytes, one
-- for each call, what coincurve draws for a Schnorr signature is an argument of the call, the clock
-- is a number and the file system a function from paths to contents.
--
-- Loops. The loop of `zeroize` runs over indices, with as many rounds as there are bytes. The pieces of
-- a bit string have as many rounds as there are bits, and a piece takes one at least. The divisions of
-- _b58encode run on fuel, the number itself, which is enough since each division makes it smaller. All
-- other loops follow a list.
--
-- Specifications, apart from the code. Keystore/Session has the calls that a client makes on a wallet
-- and on the accounts that it was given, and the states they lead to; Keystore/Session/Vault has the
-- vault that a wallet stands for, without buffers and flags. Base58/Decode has the meaning of a text in
-- Base58, Signing/StrictDer strict DER, Derivation/Bip32 and Ckd the child keys of BIP-32. Errors/Raises
-- says which exceptions a call may raise, step by step.
--
-- Not modelled: __init__.py, which re-exports names, the messages of exceptions, pydantic's own checks
-- of types, and Python's garbage collection, apart from what SecretBytes does when it is collected.
pub mod Prelude
pub mod Digits
pub mod Bits
pub mod Errors
pub mod Bytes
pub mod Text
pub mod SecretBytes
pub mod Entropy
pub mod Kdf
pub mod Aead
pub mod Envelope
pub mod Wordlist
pub mod Words
pub mod Unicode
pub mod Hashes
pub mod Mnemonic
pub mod Signing
pub mod Base58
pub mod Derivation
pub mod Keystore
pub mod Tests
