-- ===== src/Protocol/Codecs.antt =====
-- common/protocol/encryptor.go and compressor.go: the codecs of a transport. The AEAD of
-- chacha20poly1305 and the encoder of zstd are parameters, and the random bytes an argument; `room`
-- is the capacity of the target.
pub mod Laws
use go_vnet.Base.{
  ℕ, ◌+◌, ◌≤◌, ◌<◌, ◌≡◌, Bool, true, false, Option, none, some, List, [], ◌∷◌, ◌++◌, length, take,
  drop, ltb, leb, ◌||◌, ◌==◌, if◌then◌else◌,
}
use go_vnet.Protocol.{Codec}

-- package chacha20poly1305: from nonce and text
pub record Aead : Type 0 where
  pub seal : List ℕ → List ℕ → List ℕ
  pub open_sealed : List ℕ → List ℕ → Option (List ℕ)
  pub overhead : ℕ

abbrev pub nonce_size : ℕ
nonce_size = 24

abbrev pub key_size : ℕ
key_size = 32

-- `NewChacha20Poly1305Encryptor`; `new_x` is `chacha20poly1305.NewX`
unfoldable pub new_encryptor : (List ℕ → Option Aead) → List ℕ → Option Aead
new_encryptor new_x key = if length key == key_size then new_x key else none

-- `Encrypt`, with the bytes that `rand.Read` gives
unfoldable pub encrypt : Aead → Option (List ℕ) → List ℕ → ℕ → Option (List ℕ)
encrypt a none text room = none
encrypt a (some nonce) text room =
    if ltb room (nonce_size + length text + a.overhead)
    then none
    else some (nonce ++ a.seal nonce text)

-- a text that the target has no room for
unfoldable pub within : ℕ → Option (List ℕ) → Option (List ℕ)
within room none = none
within room (some text) = if leb (length text) room then some text else none

-- `Decrypt`
unfoldable pub decrypt : Aead → List ℕ → ℕ → Option (List ℕ)
decrypt a text room =
    if ltb (length text) nonce_size
    then none
    else within room (a.open_sealed (take nonce_size text) (drop nonce_size text))

unfoldable pub chacha : Aead → Option (List ℕ) → Codec
chacha a nonce = record { encode = encrypt a nonce; decode = decrypt a }

-- package zstd: `EncodeAll` and `DecodeAll`
pub record Zstd : Type 0 where
  pub encode_all : List ℕ → List ℕ
  pub decode_all : List ℕ → Option (List ℕ)

abbrev pub zstd_overhead : ℕ
zstd_overhead = 17

-- `NewZstdCompressor`; `new_zstd` makes the encoders and decoders of a level
unfoldable pub new_zstd_compressor : (ℕ → Zstd) → ℕ → Option Zstd
new_zstd_compressor new_zstd level =
    if ltb level 1 || ltb 4 level then none else some (new_zstd level)

-- the result of `EncodeAll`: what is copied, and the length that is returned
unfoldable pub copied : ℕ → List ℕ → Option (List ℕ × ℕ)
copied room [] = none
copied room (byte ∷ bytes) = some (take room (byte ∷ bytes), length (byte ∷ bytes))

-- `Compress`
unfoldable pub compress_zstd : Zstd → List ℕ → ℕ → Option (List ℕ × ℕ)
compress_zstd z [] room = some ([], 0)
compress_zstd z (byte ∷ text) room =
    if ltb room (length (byte ∷ text) + zstd_overhead)
    then none
    else copied room (z.encode_all (byte ∷ text))

-- a decoded text that is empty is refused, too
unfoldable pub decoded : ℕ → Option (List ℕ) → Option (List ℕ)
decoded room none = none
decoded room (some []) = none
decoded room (some (byte ∷ text)) =
    if leb (length (byte ∷ text)) room then some (byte ∷ text) else none

-- `Decompress`
unfoldable pub decompress_zstd : Zstd → List ℕ → ℕ → Option (List ℕ)
decompress_zstd z [] room = none
decompress_zstd z (byte ∷ bytes) room = decoded room (z.decode_all (byte ∷ bytes))

abbrev pub written_of : Option (List ℕ × ℕ) → Option (List ℕ)
written_of none = none
written_of (some (written, n)) = some written

unfoldable pub zstd : Zstd → Codec
zstd z = record {
  encode = λ text room. written_of (compress_zstd z text room);
  decode = decompress_zstd z;
}
