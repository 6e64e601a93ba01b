-- ===== src/SecretBytes.antt =====
-- src/keystonecrypto/secret_bytes.py: the buffer that is overwritten when it is done with.
pub mod Zeroize
pub mod Hex
use keystone_crypto.Prelude.{
  ℕ, zero, suc, ◌+◌, ◌-◌, ◌*◌, ◌/◌, ◌%◌, List, [], ◌∷◌, ◌++◌, Bool, true, false, ◌&&◌, ◌||◌, not,
  Option, none, some, length, set, leb, ltb, ◌==◌, if◌then◌else◌,
}
use keystone_crypto.Errors.{Error, Result, ok, err, ◌>>=◌}
use keystone_crypto.Bytes.{Bytes, ℤ, pos, negsuc, equal}
use keystone_crypto.Text.{Str, codes, decimal}

-- The object: its mutable buffer. A method that writes returns the new object.
pub record SecretBytes : Type 0 where
  pub buf : Bytes

-- The Python values that the constructor and the validator tell apart.
pub data Value : Type 0 where
  secret : SecretBytes → Value
  bytes : Bytes → Value
  other : Value

-- `__init__` on `bytes` or `bytearray`
unfoldable pub new : Bytes → Result SecretBytes
new value = if length value == 0 then err Error.value_error else ok (record { buf = value })

-- `__init__` on any value
unfoldable pub init : Value → Result SecretBytes
unfolding new
init (Value.bytes value) = new value
init _ = err Error.type_error

-- A hexadecimal digit's value.
unfoldable pub hex_digit : ℕ → Option ℕ
hex_digit c =
    if leb b'0' c && leb c b'9'
    then some (c - b'0')
    else if leb b'a' c && leb c b'f'
    then some (c - b'a' + 10)
    else if leb b'A' c && leb c b'F'
    then some (c - b'A' + 10)
    else none

-- ASCII white space, which `bytes.fromhex` skips between bytes.
unfoldable pub is_ascii_space : ℕ → Bool
is_ascii_space c = c == b' ' || leb 9 c && leb c 13

push_pair : Option ℕ → Option ℕ → Result Bytes → Result Bytes
push_pair (some hi) (some lo) rest = do bs ← rest; ok ((hi * 16 + lo) ∷ bs)
push_pair none lo rest = err Error.value_error
push_pair (some hi) none rest = err Error.value_error

-- `bytes.fromhex`
unfoldable pub bytes_fromhex : Str → Result Bytes
unfolding hex_digit is_ascii_space push_pair
bytes_fromhex [] = ok []
bytes_fromhex (c ∷ []) = if is_ascii_space c then ok [] else err Error.value_error
bytes_fromhex (c ∷ d ∷ s) =
    let skipped = bytes_fromhex (d ∷ s) in
    let pair = push_pair (hex_digit c) (hex_digit d) (bytes_fromhex s) in
    if is_ascii_space c then skipped else pair

unfoldable pub from_hex : Str → Result SecretBytes
from_hex hex_str = do value ← bytes_fromhex hex_str; new value

-- `token_bytes` is the answer of `secrets.token_bytes` in this call.
unfoldable pub random : (ℕ → Bytes) → ℤ → Result SecretBytes
random token_bytes (negsuc n) = err Error.value_error
random token_bytes (pos zero) = err Error.value_error
random token_bytes (pos (suc n)) = new (token_bytes (suc n))

-- `for i in range(len(self._buf)): self._buf[i] = 0`, with `todo` rounds left from index `i` on
unfoldable pub zeroize_loop : ℕ → ℕ → Bytes → Bytes
zeroize_loop zero i buf = buf
zeroize_loop (suc todo) i buf = zeroize_loop todo (suc i) (set buf i 0)

unfoldable pub zeroize : SecretBytes → SecretBytes
zeroize self = record { buf = zeroize_loop (length self.buf) 0 self.buf }

-- `bytes(self)`
abbrev pub to_bytes : SecretBytes → Bytes
to_bytes self = self.buf

-- `len(self)`
abbrev pub len : SecretBytes → ℕ
len self = length self.buf

abbrev hex_char : ℕ → ℕ
hex_char d = if ltb d 10 then d + b'0' else d - 10 + b'a'

unfoldable pub bytes_hex : Bytes → Str
bytes_hex [] = []
bytes_hex (b ∷ bs) = hex_char (b / 16) ∷ hex_char (b % 16) ∷ bytes_hex bs

unfoldable pub hex : SecretBytes → Str
hex self = bytes_hex self.buf

abbrev pub enter : SecretBytes → SecretBytes
enter self = self

unfoldable pub exit : SecretBytes → SecretBytes
exit self = zeroize self

-- `__del__`; `zeroize` raises nothing, so the handler has no case.
unfoldable pub finalize : SecretBytes → SecretBytes
finalize self = zeroize self

-- `__eq__`; `none` is `NotImplemented`.
unfoldable pub eq : SecretBytes → Value → Option Bool
eq self (Value.secret o) = some (if not (len self == len o) then false else equal self.buf o.buf)
eq self _ = none

-- `__hash__` always raises.
unfoldable pub hash : SecretBytes → Result ℕ
hash self = err Error.type_error

unfoldable pub repr : SecretBytes → Str
repr self = codes "<SecretBytes len=" ++ (decimal (len self) ++ codes " redacted>")

-- The pydantic validator and serializer.
unfoldable pub validate : Value → Result SecretBytes
unfolding new
validate (Value.secret s) = ok s
validate (Value.bytes b) = if length b == 0 then err Error.value_error else new b
validate Value.other = err Error.type_error

abbrev pub serialize : SecretBytes → Bytes
serialize value = to_bytes value
