-- ===== src/SessionConn/Delivery.antt =====
-- What arrives of what is sent over a connection of common/session/session_conn.go.
use go_vnet.Base.{
  ℕ, zero, suc, ◌^◌, ◌<◌, ◌≡◌, refl, ap, ◌∙◌, false, Option, some, List, [], ◌∷◌, ◌++◌, map,
  append_assoc, arith, length, length-append, ltb, ◌==◌, if◌then◌else◌,
}
use go_vnet.Protocol.Frames.{take-append, drop-append}
use go_vnet.SessionConn.{
  put_uint32, uint32, send_typed, send, Cause, message_of, close_with_error, Received, message,
  remote_error, decoded, receive,
}

uint32-put_uint32 : (n : ℕ) (rest : List ℕ) → n < 2 ^ 32 → uint32 (put_uint32 n ++ rest) ≡ n
uint32-put_uint32 n rest h = omega arith

-- what the receiver makes of a payload of the type
abbrev arrival : (List ℕ → Option (List ℕ × ℕ)) → ℕ → List ℕ → Received
arrival unmarshal typ payload = if typ == 1 then decoded (unmarshal payload) else message payload

receive-send_typed :
    (unmarshal : List ℕ → Option (List ℕ × ℕ)) (typ : ℕ) (payload rest : List ℕ)
    → 0 < length payload
    → length payload < 2 ^ 32
    → receive unmarshal (send_typed typ payload ++ rest) ≡ (arrival unmarshal typ payload, rest)
unfolding receive send_typed
receive-send_typed unmarshal typ payload rest some_bytes fits =
    let size : uint32 (put_uint32 (length payload) ++ payload ++ rest) ≡ length payload =
      uint32-put_uint32 (length payload) (payload ++ rest) fits in
    let head : ltb (length (typ ∷ put_uint32 (length payload) ++ payload ++ rest)) 5 ≡ false =
      ground arith in
    let more : (length payload == 0) ≡ false = ground arith in
    let there : ltb (length (payload ++ rest)) (length payload) ≡ false =
      ground (arith, length-append payload rest) in
    rw (head, size, more, there, take-append payload rest, drop-append payload rest) refl

receive-send_empty :
    (unmarshal : List ℕ → Option (List ℕ × ℕ)) (rest : List ℕ)
    → receive unmarshal (send [] ++ rest) ≡ (message [], rest)
unfolding receive send send_typed
receive-send_empty unmarshal rest =
    let head : ltb (suc (suc (suc (suc (suc (length rest)))))) 5 ≡ false = ground arith in
    rw head refl

receive-send_some :
    (unmarshal : List ℕ → Option (List ℕ × ℕ)) (payload rest : List ℕ)
    → 0 < length payload
    → length payload < 2 ^ 32
    → receive unmarshal (send payload ++ rest) ≡ (message payload, rest)
unfolding send
receive-send_some unmarshal payload rest some_bytes fits =
    receive-send_typed unmarshal 0 payload rest some_bytes fits

receive-send :
    (unmarshal : List ℕ → Option (List ℕ × ℕ)) (payload rest : List ℕ)
    → length payload < 2 ^ 32
    → receive unmarshal (send payload ++ rest) ≡ (message payload, rest)
receive-send unmarshal [] rest fits = receive-send_empty unmarshal rest
receive-send unmarshal (b ∷ payload) rest fits =
    receive-send_some unmarshal (b ∷ payload) rest (omega arith) fits

-- the bytes of a sequence of messages, and what that many calls of `Receive` return
abbrev pub send_all : List (List ℕ) → List ℕ
send_all [] = []
send_all (m ∷ messages) = send m ++ send_all messages

abbrev pub receive_all : (List ℕ → Option (List ℕ × ℕ)) → ℕ → List ℕ → List Received × List ℕ
receive_all unmarshal zero stream = ([], stream)
receive_all unmarshal (suc n) stream =
    let r = receive unmarshal stream in
    let more = receive_all unmarshal n r.1 in (r.0 ∷ more.0, more.1)

abbrev pub AllFit : List (List ℕ) → Type 0
AllFit [] = Unit
AllFit (m ∷ messages) = (length m < 2 ^ 32) × AllFit messages

-- What `Send` writes message by message, each shorter than 2 ^ 32 bytes and possibly empty, as many
-- calls of `Receive` return in the same order, whatever follows on the stream, which they leave.
pub receive_all-send_all :
    (unmarshal : List ℕ → Option (List ℕ × ℕ)) (messages : List (List ℕ)) (rest : List ℕ)
    → AllFit messages
    → receive_all unmarshal (length messages) (send_all messages ++ rest)
      ≡ (map message messages, rest)
receive_all-send_all unmarshal [] rest fit = refl
receive_all-send_all unmarshal (m ∷ messages) rest (fits, fit) =
    rw
      (
        append_assoc (send m) (send_all messages) rest,
        receive-send unmarshal m (send_all messages ++ rest) fits,
        receive_all-send_all unmarshal messages rest fit,
      )
      refl

-- The text and the code of the error that one side closes the connection with arrive at the other
-- side as that error, with the code 500 for an error that is not of this package. The JSON decoder
-- undoes the encoder, whose text is neither empty nor 2 ^ 32 bytes long.
pub receive-close_with_error :
    (marshal : List ℕ × ℕ → List ℕ) (unmarshal : List ℕ → Option (List ℕ × ℕ)) (cause : Cause)
    (rest : List ℕ)
    → ((e : List ℕ × ℕ) → unmarshal (marshal e) ≡ some e)
    → 0 < length (marshal (message_of cause))
    → length (marshal (message_of cause)) < 2 ^ 32
    → receive unmarshal (close_with_error marshal (some cause) ++ rest)
      ≡ (remote_error (message_of cause).0 (message_of cause).1, rest)
unfolding close_with_error
receive-close_with_error marshal unmarshal cause rest inverse some_bytes fits =
    receive-send_typed unmarshal 1 (marshal (message_of cause)) rest some_bytes fits
    ∙ ap (λ d. (decoded d, rest)) (inverse (message_of cause))
