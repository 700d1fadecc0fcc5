-- ===== src/Requests.antt =====
-- common/session/request.go: a request and its response, each a text of three parts with dots
-- between them, | header in base64 | encrypted JSON in base64 | MD5 of what stands before |. Texts
-- are lists of bytes. JSON, base64, MD5, AES and RSA are those of their packages, in the record
-- `Packages`.
pub mod Splitting
pub mod Exchange
mod Tests
use go_vnet.Base.{
  ℕ, ◌≡◌, Bool, true, false, ◌&&◌, Option, none, some, List, [], ◌∷◌, ◌++◌, ◌==◌, if◌then◌else◌,
}

pub record Header : Type 0 where
  pub timestamp : ℕ
  pub nonce : List ℕ
  pub sub_device_id : ℕ
  pub key : List ℕ
  pub secret : List ℕ

pub data Error : Type 0 where
  invalid_format wrong_checksum invalid_header invalid_payload : Error
  not_encrypted not_decrypted not_marshalled not_unmarshalled : Error
  -- a text of the server, which is not a response
  told : List ℕ → Error

-- `panicked` is `MustDecodeString` on a text that is not base64
pub data Result {ℓ} (A : Type ℓ) : Type ℓ where
  ok : A → Result A
  err : Error → Result A
  panicked : Result A

infixl 5 ◌>>=◌
abbrev pub ◌>>=◌ {ℓ κ} : {A : Type ℓ} {B : Type κ} → Result A → (A → Result B) → Result B
ok a >>= f = f a
err e >>= f = err e
panicked >>= f = panicked

-- the value, or an error in its place
abbrev pub or_err {ℓ} : {A : Type ℓ} → Error → Option A → Result A
or_err e none = err e
or_err e (some a) = ok a

abbrev pub must {ℓ} : {A : Type ℓ} → Option A → Result A
must none = panicked
must (some a) = ok a

-- The packages, for requests of type `Q` and responses of type `R`. AES takes the text, the key and
-- the nonce.
pub record Packages (Q : Type 0) (R : Type 0) : Type 0 where
  pub header_json : Header → List ℕ
  pub header_of_json : List ℕ → Option Header
  pub request_json : Q → Option (List ℕ)
  pub request_of_json : List ℕ → Option Q
  pub response_json : R → Option (List ℕ)
  pub response_of_json : List ℕ → Option R
  -- `RawStdEncoding`, for the header
  pub raw64 : List ℕ → List ℕ
  pub of_raw64 : List ℕ → Option (List ℕ)
  -- `StdEncoding`
  pub base64 : List ℕ → List ℕ
  pub of_base64 : List ℕ → Option (List ℕ)
  pub md5 : List ℕ → List ℕ
  pub encrypt_cbc : List ℕ → List ℕ → List ℕ → Option (List ℕ)
  pub decrypt_cbc : List ℕ → List ℕ → List ℕ → Option (List ℕ)
  -- with the server's public key, and with its private key
  pub encrypt_oaep : List ℕ → Option (List ℕ)
  pub decrypt_oaep : List ℕ → Option (List ℕ)

abbrev pub dot : ℕ
dot = 46

abbrev pub bytes_eq : List ℕ → List ℕ → Bool
bytes_eq [] [] = true
bytes_eq [] (b ∷ bs) = false
bytes_eq (a ∷ as_) [] = false
bytes_eq (a ∷ as_) (b ∷ bs) = (a == b) && bytes_eq as_ bs

unfoldable pub in_first : ℕ → List (List ℕ) → List (List ℕ)
in_first c [] = (c ∷ []) ∷ []
in_first c (part ∷ parts) = (c ∷ part) ∷ parts

-- `strings.Split` at the dots
unfoldable pub split : List ℕ → List (List ℕ)
split [] = [] ∷ []
split (c ∷ text) = if c == dot then [] ∷ split text else in_first c (split text)

-- `toBase64` of a header
unfoldable pub to_base64 : {Q R : Type 0} → Packages Q R → Header → List ℕ
to_base64 p h = p.raw64 (p.header_json h)

-- `base64ToPtr` into a header
unfoldable pub base64_to_header : {Q R : Type 0} → Packages Q R → List ℕ → Option Header
base64_to_header p text = elim (p.of_raw64 text) [ none ↦ none | some json ↦ p.header_of_json json ]

unfoldable pub with_checksum : {Q R : Type 0} → Packages Q R → List ℕ → List ℕ
with_checksum p text = text ++ (dot ∷ p.md5 text)

-- `buildMessage`, of the JSON text of the data
unfoldable pub build_message :
    {Q R : Type 0} → Packages Q R → Header → List ℕ → Option (List ℕ) → Result (List ℕ)
build_message p h secret json = or_err not_marshalled json >>= λ text.
    or_err not_encrypted (p.encrypt_cbc text secret h.nonce) >>= λ encrypted.
    ok (with_checksum p (to_base64 p h ++ (dot ∷ p.base64 encrypted)))

-- the header with the secret, encrypted for the server
unfoldable pub with_secret : {Q R : Type 0} → Packages Q R → Header → List ℕ → Header
with_secret p h encrypted = record h { secret = p.base64 encrypted }

-- `RequestClient.buildRequest`
unfoldable pub build_request : {Q R : Type 0} → Packages Q R → Q → Header → List ℕ → Result (List ℕ)
build_request p request h secret = or_err not_encrypted (p.encrypt_oaep secret) >>= λ encrypted.
    build_message p (with_secret p h encrypted) secret (p.request_json request)

-- the parts and the checksum, of `ParseRequest` and `decode`; the first error is for a text with
-- other parts
unfoldable pub checked_parts :
    {Q R : Type 0} → Packages Q R → Error → List (List ℕ) → Result (List ℕ × List ℕ)
checked_parts p e [] = err e
checked_parts p e (a ∷ []) = err e
checked_parts p e (a ∷ b ∷ []) = err e
checked_parts p e (a ∷ b ∷ c ∷ []) =
    if bytes_eq (p.md5 (a ++ (dot ∷ b))) c then ok (a, b) else err wrong_checksum
checked_parts p e (a ∷ b ∷ c ∷ d ∷ parts) = err e

-- `ParseRequest`
unfoldable pub parse_request : {Q R : Type 0} → Packages Q R → List ℕ → Result (Header × List ℕ)
parse_request p text = checked_parts p invalid_format (split text) >>= λ parts.
    or_err invalid_header (base64_to_header p parts.0) >>= λ h. ok (h, parts.1)

-- `buildMessage` in `HandleRequest`, which passes over its error
unfoldable pub or_empty : Result (List ℕ) → Result (List ℕ)
or_empty (ok text) = ok text
or_empty (err e) = ok []
or_empty panicked = panicked

-- `HandleRequest` at the time `now`; the handler gives a response and whether it failed
unfoldable pub handle_request :
    {Q R : Type 0} → Packages Q R → ℕ → Header → List ℕ → (Q → R × Bool) → Result (List ℕ × Bool)
handle_request p now h encrypted handler = must (p.of_base64 h.secret) >>= λ sealed.
    or_err not_decrypted (p.decrypt_oaep sealed) >>= λ secret.
    must (p.of_base64 encrypted) >>= λ bytes.
    or_err not_decrypted (p.decrypt_cbc bytes secret h.nonce) >>= λ text.
    or_err invalid_payload (p.request_of_json text) >>= λ request.
    or_empty
      (build_message p (record h { timestamp = now }) secret (p.response_json (handler request).0))
    >>= λ out. ok (out, (handler request).1)

-- `RequestClient.decode`
unfoldable pub decode : {Q R : Type 0} → Packages Q R → List ℕ → List ℕ → List ℕ → Result R
decode p receive secret nonce = checked_parts p (told receive) (split receive) >>= λ parts.
    must (p.of_base64 parts.1) >>= λ encrypted.
    or_err not_decrypted (p.decrypt_cbc encrypted secret nonce) >>= λ text.
    or_err not_unmarshalled (p.response_of_json text)

-- `RequestClient.Do`, over a connection that answers a request with a text or an error
unfoldable pub do_request :
    {Q R : Type 0} → Packages Q R → (List ℕ → Result (List ℕ)) → Header → Q → List ℕ → Result R
do_request p connection h request secret = build_request p request h secret >>= λ text.
    connection text >>= λ receive. decode p receive secret h.nonce

-- the server's side: `ParseRequest`, then `HandleRequest`
unfoldable pub serve :
    {Q R : Type 0} → Packages Q R → ℕ → (Q → R × Bool) → List ℕ → Result (List ℕ × Bool)
serve p now handler text = parse_request p text >>= λ m. handle_request p now m.0 m.1 handler
