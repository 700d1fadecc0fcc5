-- ===== src/Router/Cidr.antt =====
-- common/router/router.go: the text form of a prefix (`prefixToCIDR` and the helpers below it).
-- A text is the list of its bytes, and the binary prefix string is the list of its digits, `'1'`
-- being `true`.
use Prim.Native.Nat.{bit_or, bit_and}
use go_vnet.Base.{
  ℕ, zero, suc, ◌+◌, ◌-◌, ◌*◌, ◌/◌, ◌%◌, ◌^◌, Bool, true, false, List, [], ◌∷◌, ◌++◌, get_or, set,
  replicate, take, ltb, ◌==◌, if◌then◌else◌,
}
use go_vnet.Router.{Text}

-- the loop of `intToString`: the digits of `n` before those in `result`. A number has at most as
-- many digits as its value, so `n` rounds of fuel are enough.
unfoldable pub int_digits : ℕ → ℕ → Text → Text
int_digits zero n result = result
int_digits (suc fuel) n result =
    let more = int_digits fuel (n / 10) ((b'0' + n % 10) ∷ result) in
    if n == 0 then result else more

-- `intToString`, at a number that is not negative
unfoldable pub int_to_string : ℕ → Text
unfolding int_digits
int_to_string n = if n == 0 then b'0' ∷ [] else int_digits n n []

-- `hexDigits[v & 0xF]`
abbrev hex_digit : ℕ → ℕ
hex_digit d = if ltb d 10 then b'0' + d else b'a' + (d - 10)

hex_digits : ℕ → ℕ → Text → Text
hex_digits zero v result = result
hex_digits (suc fuel) v result =
    let more = hex_digits fuel (v / 2 ^ 4) (hex_digit (v % 16) ∷ result) in
    if v == 0 then result else more

-- `uint16ToHex`; 16 bits have four digits
unfoldable pub uint16_to_hex : ℕ → Text
unfolding hex_digits
uint16_to_hex v = if v == 0 then b'0' ∷ [] else hex_digits 4 v []

-- `ip4ToString`
unfoldable pub ip4_to_string : List ℕ → Text
unfolding int_to_string
ip4_to_string ip =
    int_to_string (get_or ip 0 0)
    ++ (b'.' ∷ int_to_string (get_or ip 1 0)
        ++ (b'.' ∷ int_to_string (get_or ip 2 0) ++ (b'.' ∷ int_to_string (get_or ip 3 0))))

-- the rounds of `ip6ToString` that are left; each takes two bytes
unfoldable pub ip6_groups : List ℕ → Text
unfolding uint16_to_hex
ip6_groups [] = []
ip6_groups (hi ∷ []) = []
ip6_groups (hi ∷ lo ∷ []) = uint16_to_hex (hi * 2 ^ 8 + lo)
ip6_groups (hi ∷ lo ∷ (next ∷ rest)) =
    uint16_to_hex (hi * 2 ^ 8 + lo) ++ b':' ∷ ip6_groups (next ∷ rest)

-- the rounds of `if prefix[i] == '1' { ip[i/8] |= 1 << (7 - i%8) }` from `i` on
unfoldable pub set_bits : ℕ → List Bool → List ℕ → List ℕ
set_bits i [] ip = ip
set_bits i (b ∷ prefix) ip =
    set_bits (i + 1) prefix
      (if b then set ip (i / 8) (bit_or (get_or ip (i / 8) 0) (2 ^ (7 - i % 8))) else ip)

-- `for i := from; i < len(ip); i++ { ip[i] = 0 }`
unfoldable pub zero_from : ℕ → List ℕ → List ℕ
zero_from _ [] = []
zero_from zero (_ ∷ ip) = 0 ∷ zero_from zero ip
zero_from (suc k) (b ∷ ip) = b ∷ zero_from k ip

-- the bits behind the prefix are cleared; `^byte(0xFF >> k)` is `255 - 255 / 2 ^ k`
unfoldable pub clear_host : ℕ → List ℕ → List ℕ
unfolding zero_from
clear_host bits ip =
    let cleared = zero_from (bits / 8 + 1) ip in
    if bits % 8 == 0
    then cleared
    else set cleared (bits / 8) (bit_and (get_or cleared (bits / 8) 0) (255 - 255 / 2 ^ (bits % 8)))

-- the address bytes of a prefix in a family of `size` bytes
unfoldable pub prefix_bytes : ℕ → List Bool → ℕ → List ℕ
unfolding set_bits clear_host
prefix_bytes size prefix bits =
    let ip = set_bits 0 (take (8 * size) prefix) (replicate size 0) in
    if ltb bits (8 * size) then clear_host bits ip else ip

unfoldable pub prefix_to_cidr : List Bool → ℕ → Bool → Text
unfolding prefix_bytes ip4_to_string ip6_groups int_to_string
prefix_to_cidr prefix zero true = b'0' ∷ b'.' ∷ b'0' ∷ b'.' ∷ b'0' ∷ b'.' ∷ b'0' ∷ b'/' ∷ b'0' ∷ []
prefix_to_cidr prefix zero false = b':' ∷ b':' ∷ b'/' ∷ b'0' ∷ []
prefix_to_cidr prefix (suc n) true =
    ip4_to_string (prefix_bytes 4 prefix (suc n)) ++ b'/' ∷ int_to_string (suc n)
prefix_to_cidr prefix (suc n) false =
    ip6_groups (prefix_bytes 16 prefix (suc n)) ++ b'/' ∷ int_to_string (suc n)
