-- ===== src/SessionQuic/Tests.antt =====
-- Messages of one fragment, of two, and of 65536.
use go_vnet.Base.{
  ℕ, zero, suc, ◌<◌, ◌≡◌, refl, inl, inr, Bool, true, some, List, [], ◌∷◌, map, arith, length,
  length-replicate, replicate, find,
}
use go_vnet.SessionQuic.{fragment_count_of, datagram_of, send_message, receive_message}
use go_vnet.SessionQuic.Delivery.{Arrives, receive_message-any_order, receive_message-send_message}

abbrev bytes : List ℕ
bytes = 1 ∷ 2 ∷ 3 ∷ []

accepts : List ℕ → Bool
accepts d = true

all_accepted : (d : List ℕ) → accepts d ≡ true
unfolding accepts
all_accepted d = refl

-- two fragments
two : List ℕ
two = replicate 1000 7

two-length : length two ≡ 1000
unfolding two
two-length = length-replicate {A = ℕ} 1000 7

both : (j : ℕ) → j < fragment_count_of two → Arrives j (1 ∷ 0 ∷ 1 ∷ [])
unfolding fragment_count_of
both zero h = inr (inl refl)
both (suc zero) h = inl refl
both (suc (suc j)) h = absurd (omega (arith, two-length))

-- the second one first, and twice
receive_message-any_order_example :
    (receive_message [] (map (datagram_of two 5 (fragment_count_of two)) (1 ∷ 0 ∷ 1 ∷ []))).1
    ≡ some two
unfolding fragment_count_of find
receive_message-any_order_example =
    receive_message-any_order two 5 (1 ∷ 0 ∷ 1 ∷ []) [] (omega arith) (omega (arith, two-length))
      (omega (arith, two-length))
      (omega (arith, two-length), (omega (arith, two-length), (omega (arith, two-length), tt))) both
      refl

receive_message-send_message_example :
    (receive_message [] (send_message accepts 4 two).1).1 ≡ some two
unfolding find
receive_message-send_message_example =
    receive_message-send_message accepts 4 two [] all_accepted (omega (arith, two-length))
      (λ short. absurd (omega (arith, two-length, short))) refl

-- a message of so many bytes
of_length : (n : ℕ) → (buf : List ℕ) × (length buf ≡ n)
of_length n = (replicate n 0, length-replicate n 0)

many : List ℕ
many = (of_length 64880640).0

many-length : length many ≡ 64880640
unfolding many
many-length = (of_length 64880640).1
