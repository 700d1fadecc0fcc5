-- ===== src/SessionConn/Tests.antt =====
-- A connection whose error texts are the code followed by the message.
use go_vnet.Base.{ℕ, ◌≡◌, refl, Option, none, some, List, [], ◌∷◌, ◌++◌, map, arith}
use go_vnet.SessionConn.{message, read_error, receive}
use go_vnet.SessionConn.Delivery.{send_all, receive_all, receive_all-send_all}

abbrev marshal : List ℕ × ℕ → List ℕ
marshal (msg, code) = code ∷ msg

abbrev unmarshal : List ℕ → Option (List ℕ × ℕ)
unmarshal [] = none
unmarshal (code ∷ msg) = some (msg, code)

cut_off : receive unmarshal (0 ∷ 0 ∷ 0 ∷ 0 ∷ 3 ∷ 7 ∷ 8 ∷ []) ≡ (read_error, [])
unfolding receive
cut_off = refl

abbrev three : List (List ℕ)
three = (7 ∷ 8 ∷ []) ∷ [] ∷ (9 ∷ []) ∷ []

receive_all-send_all_example :
    receive_all unmarshal 3 (send_all three ++ 5 ∷ []) ≡ (map message three, 5 ∷ [])
receive_all-send_all_example =
    receive_all-send_all unmarshal three (5 ∷ []) (omega arith, (omega arith, (omega arith, tt)))
