-- ===== src/Requests/Exchange.antt =====
-- common/session/request.go: a request of the client, its handling by the server, and the response.
use go_vnet.Base.{ℕ, ◌≡◌, refl, ap, ◌∙◌, Bool, some, List, ◌∷◌, ◌++◌, length}
use go_vnet.Requests.{
  Header, Error, ok, Packages, ◌>>=◌, dot, invalid_format, told, split, to_base64, base64_to_header,
  with_checksum, build_message, with_secret, build_request, checked_parts, parse_request, or_empty,
  handle_request, decode, do_request, serve,
}
use go_vnet.Requests.Splitting.{Dotless, checked_parts-with_checksum}

-- What the packages document: decoding undoes encoding, base64 and MD5 in hexadecimal have no dots,
-- AES takes keys and nonces of 16 bytes, and RSA secrets of 16 bytes.
pub record PackagesLaw {Q R : Type 0} (p : Packages Q R) : Type 0 where
  pub header_back : (h : Header) → p.header_of_json (p.header_json h) ≡ some h
  pub raw64_back : (text : List ℕ) → p.of_raw64 (p.raw64 text) ≡ some text
  pub raw64_dotless : (text : List ℕ) → Dotless (p.raw64 text)
  pub base64_back : (text : List ℕ) → p.of_base64 (p.base64 text) ≡ some text
  pub base64_dotless : (text : List ℕ) → Dotless (p.base64 text)
  pub md5_dotless : (text : List ℕ) → Dotless (p.md5 text)
  pub cbc :
      (text key nonce : List ℕ)
      → length key ≡ 16
      → length nonce ≡ 16
      → (out : List ℕ) × (p.encrypt_cbc text key nonce ≡ some out)
        × (p.decrypt_cbc out key nonce ≡ some text)
  pub oaep :
      (secret : List ℕ)
      → length secret ≡ 16
      → (out : List ℕ) × (p.encrypt_oaep secret ≡ some out) × (p.decrypt_oaep out ≡ some secret)

module _ {Q R : Type 0} (p : Packages Q R) (law : PackagesLaw p) where
  abbrev message : Header → List ℕ → List ℕ
  message h encrypted = with_checksum p (to_base64 p h ++ (dot ∷ p.base64 encrypted))

  message-built :
      (h : Header) (secret json out : List ℕ)
      → p.encrypt_cbc json secret h.nonce ≡ some out
      → build_message p h secret (some json) ≡ ok (message h out)
  unfolding build_message
  message-built h secret json out e = rw e refl

  -- both sides find the two parts of a message
  parts_of_message :
      (e : Error) (h : Header) (encrypted : List ℕ)
      → checked_parts p e (split (message h encrypted)) ≡ ok (to_base64 p h, p.base64 encrypted)
  unfolding to_base64
  parts_of_message e h encrypted =
      checked_parts-with_checksum p e (to_base64 p h) (p.base64 encrypted)
        (law.raw64_dotless (p.header_json h)) (law.base64_dotless encrypted)
        (law.md5_dotless (to_base64 p h ++ (dot ∷ p.base64 encrypted)))

  header_read : (h : Header) → base64_to_header p (to_base64 p h) ≡ some h
  unfolding base64_to_header to_base64
  header_read h = rw (law.raw64_back (p.header_json h), base64_to_header) (law.header_back h)

  parse_request-message :
      (h : Header) (encrypted : List ℕ)
      → parse_request p (message h encrypted) ≡ ok (h, p.base64 encrypted)
  unfolding parse_request
  parse_request-message h encrypted =
      rw (parts_of_message invalid_format h encrypted, header_read h) refl

  decode-message :
      (h : Header) (secret nonce json encrypted : List ℕ) (got : R)
      → p.decrypt_cbc encrypted secret nonce ≡ some json
      → p.response_of_json json ≡ some got
      → decode p (message h encrypted) secret nonce ≡ ok got
  unfolding decode
  decode-message h secret nonce json encrypted got opened read =
      rw
        (
          parts_of_message (told (message h encrypted)) h encrypted,
          law.base64_back encrypted,
          opened,
          read,
        )
        refl

  -- the server's side, on the message of the client
  serve-message :
      (now : ℕ) (handler : Q → R × Bool) (h : Header) (sealed secret text encrypted : List ℕ)
      (request : Q) (json out : List ℕ)
      → p.decrypt_oaep sealed ≡ some secret
      → p.decrypt_cbc encrypted secret h.nonce ≡ some text
      → p.request_of_json text ≡ some request
      → p.response_json (handler request).0 ≡ some json
      → p.encrypt_cbc json secret h.nonce ≡ some out
      → serve p now handler (message (with_secret p h sealed) encrypted)
        ≡ ok (
          message (record h { timestamp = now; secret = p.base64 sealed }) out,
          (handler request).1,
        )
  unfolding serve handle_request with_secret or_empty
  serve-message now handler h sealed secret text encrypted request json out s d q r c =
      ap (λ m. m >>= λ m. handle_request p now m.0 m.1 handler)
        (parse_request-message (with_secret p h sealed) encrypted)
      ∙ rw
          (
            law.base64_back sealed,
            s,
            law.base64_back encrypted,
            d,
            q,
            r,
            message-built (record h { timestamp = now; secret = p.base64 sealed }) secret json out
                c,
          )
          refl

  -- A request of a client to a server comes back as the response, when the packages of the
  -- encodings and ciphers do what they document: with a secret and a nonce of 16 bytes, when the
  -- JSON of the request is read by the server as `seen` and that of the handler's response to
  -- `seen` by the client as `got`, then `Do` succeeds with `got`, whether or not the handler
  -- reported an error, and whatever the server's time is.
  pub do_request-serve :
      (now : ℕ) (handler : Q → R × Bool) (h : Header) (request seen : Q) (secret text json : List ℕ)
      (got : R)
      → length secret ≡ 16
      → length h.nonce ≡ 16
      → p.request_json request ≡ some text
      → p.request_of_json text ≡ some seen
      → p.response_json (handler seen).0 ≡ some json
      → p.response_of_json json ≡ some got
      → do_request p (λ sent. serve p now handler sent >>= λ r. ok r.0) h request secret ≡ ok got
  unfolding do_request build_request with_secret
  do_request-serve now handler h request seen secret text json got size nonce_size wrote read
        answered heard =
      let (sealed, seals, unseals) = law.oaep secret size in
      let (encrypted, encrypts, decrypts) = law.cbc text secret h.nonce size nonce_size in
      let (out, encrypts_back, decrypts_back) = law.cbc json secret h.nonce size nonce_size in
      rw
        (
          seals,
          wrote,
          message-built (with_secret p h sealed) secret text encrypted encrypts,
          serve-message now handler h sealed secret text encrypted seen json out unseals decrypts
              read answered encrypts_back,
        )
        (decode-message (record h { timestamp = now; secret = p.base64 sealed }) secret h.nonce json
          out got decrypts_back heard)
