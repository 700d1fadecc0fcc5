-- ===== src/Requests/Tests.antt =====
-- Packages for the tests: base64 moves each byte behind the dot, and the ciphers leave their text
-- as it is.
use go_vnet.Base.{
  ℕ, ◌+◌, ◌-◌, ◌≡◌, refl, ap, Bool, true, Option, none, some, List, [], ◌∷◌, ◌++◌, length, arith,
  take, drop,
}
use go_vnet.Protocol.Frames.{take-append, drop-append}
use go_vnet.Requests.{
  Header, ok, err, told, ◌>>=◌, Packages, invalid_format, parse_request, do_request, serve, split,
  decode, checked_parts, in_first,
}
use go_vnet.Requests.Splitting.{Dotless}
use go_vnet.Requests.Exchange.{PackagesLaw, do_request-serve}

abbrev moved : List ℕ → List ℕ
moved [] = []
moved (c ∷ text) = (c + 47) ∷ moved text

abbrev moved_back : List ℕ → List ℕ
moved_back [] = []
moved_back (c ∷ text) = (c - 47) ∷ moved_back text

back : (text : List ℕ) → moved_back (moved text) ≡ text
back [] = refl
back (c ∷ text) = ground (arith, back text)

dotless : (text : List ℕ) → Dotless (moved text)
dotless [] = tt
dotless (c ∷ text) = (ground arith, dotless text)

abbrev header_text : Header → List ℕ
header_text h =
    h.timestamp ∷ h.sub_device_id ∷ length h.nonce ∷ length h.key ∷ (h.nonce ++ (h.key ++ h.secret))

abbrev header_of : List ℕ → Option Header
header_of (timestamp ∷ id ∷ n ∷ k ∷ text) = some (record {
  timestamp = timestamp;
  nonce = take n text;
  sub_device_id = id;
  key = take k (drop n text);
  secret = drop k (drop n text);
})
header_of _ = none

header_back : (h : Header) → header_of (header_text h) ≡ some h
header_back h =
    simp
      (
        take-append h.nonce (h.key ++ h.secret),
        drop-append h.nonce (h.key ++ h.secret),
        take-append h.key h.secret,
        drop-append h.key h.secret,
      )
      refl

abbrev first : List ℕ → Option ℕ
first [] = none
first (n ∷ _) = some n

abbrev open_packages : Packages ℕ ℕ
open_packages = record {
  header_json = header_text;
  header_of_json = header_of;
  request_json = λ q. some (q ∷ []);
  request_of_json = first;
  response_json = λ r. some (r ∷ 0 ∷ []);
  response_of_json = first;
  raw64 = moved;
  of_raw64 = λ text. some (moved_back text);
  base64 = moved;
  of_base64 = λ text. some (moved_back text);
  md5 = λ text. 0 ∷ [];
  encrypt_cbc = λ text key nonce. some text;
  decrypt_cbc = λ text key nonce. some text;
  encrypt_oaep = some;
  decrypt_oaep = some;
}

open_packages-PackagesLaw : PackagesLaw open_packages
open_packages-PackagesLaw = record {
  header_back = header_back;
  raw64_back = λ text. ap some (back text);
  raw64_dotless = dotless;
  base64_back = λ text. ap some (back text);
  base64_dotless = dotless;
  md5_dotless = λ text. (refl, tt);
  cbc = λ text key nonce k n. (text, refl, refl);
  oaep = λ secret s. (secret, refl, refl);
}

abbrev sixteen : List ℕ
sixteen = 1 ∷ 2 ∷ 3 ∷ 4 ∷ 5 ∷ 6 ∷ 7 ∷ 8 ∷ 9 ∷ 10 ∷ 11 ∷ 12 ∷ 13 ∷ 14 ∷ 15 ∷ 16 ∷ []

abbrev header : Header
header = record { timestamp = 100; nonce = sixteen; sub_device_id = 3; key = 7 ∷ []; secret = [] }

-- the next number, and a failure
abbrev answer : ℕ → ℕ × Bool
answer q = (q + 1, true)

do_request-serve_example :
    do_request open_packages
      (λ sent. serve open_packages 200 answer sent >>= λ r. ok r.0)
      header
      5
      sixteen
    ≡ ok 6
do_request-serve_example =
    do_request-serve open_packages open_packages-PackagesLaw 200 answer header 5 5 sixteen (5 ∷ [])
      (6 ∷ 0 ∷ []) 6 refl refl refl refl refl refl

-- A text of two parts is no request, and as a response it is the error.
two_parts :
    (parse_request open_packages (1 ∷ 46 ∷ 2 ∷ []) ≡ err invalid_format)
    × (decode open_packages (1 ∷ 46 ∷ 2 ∷ []) sixteen sixteen ≡ err (told (1 ∷ 46 ∷ 2 ∷ [])))
unfolding parse_request decode split in_first checked_parts
two_parts = (refl, refl)
