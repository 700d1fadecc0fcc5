-- ===== src/P2p/Fallback.antt =====
-- vnet/client/client_p2p.go: what `OnFallback` does to the stream that failed.
use mathlib.Core.Path.{subst}
use go_vnet.Base.{
  ℕ, ◌≡◌, refl, sym, ap, ◌∙◌, Bool, true, false, Option, none, some, List, [], ◌∷◌, ◌==◌,
  if◌then◌else◌, find, Bool-cases, inl, inr,
}
use go_vnet.Hub.Destination.{Conn, Destination, replace_tx, p2p_instead}
use go_vnet.P2p.{
  Key, by_destination, by_ip, key_eq, load_and_delete, store_connection, Client, cancel_all,
  close_stream, start_receiving, registered, replace_at, replace_p2p, cancelled_by, on_fallback,
}

-- what the client does with streams
pub data Event : Type 0 where
  replaces : ℕ → ℕ → Event
  falls_back : ℕ → Conn → Event

abbrev pub step : Event → Client → Client
step (replaces stream ip) c = replace_p2p stream ip c
step (falls_back ip rw) c = on_fallback ip rw c

abbrev pub run : List Event → Client → Client
run [] c = c
run (e ∷ events) c = run events (step e c)

-- every entry stands under a destination
abbrev ByDestination : List (Key × ℕ) → Type 0
ByDestination [] = Unit
ByDestination ((by_destination d, stream) ∷ entries) = ByDestination entries
ByDestination ((by_ip ip, stream) ∷ entries) = ⊥

not_found :
    (ip : ℕ) (entries : List (Key × ℕ))
    → ByDestination entries
    → load_and_delete (by_ip ip) entries ≡ (none, entries)
unfolding load_and_delete key_eq
not_found ip [] h = refl
not_found ip ((by_destination d, stream) ∷ entries) h =
    ap (λ r. (r.0, (by_destination d, stream) ∷ r.1)) (not_found ip entries h)
not_found ip ((by_ip i, stream) ∷ entries) h = absurd h

store-ByDestination :
    (d stream : ℕ) (entries : List (Key × ℕ))
    → ByDestination entries
    → ByDestination (store_connection (by_destination d) stream entries)
unfolding store_connection key_eq
store-ByDestination d stream [] h = tt
store-ByDestination d stream ((by_destination j, old) ∷ entries) h = elim (Bool-cases (j == d)) [
  | inl same ↦ rw same h
  | inr other ↦ rw other (store-ByDestination d stream entries h)
]
store-ByDestination d stream ((by_ip i, old) ∷ entries) h = absurd h

unchanged_by_fallback :
    (ip : ℕ) (rw_ : Conn) (c : Client) → ByDestination c.connections → on_fallback ip rw_ c ≡ c
unfolding on_fallback cancelled_by
unchanged_by_fallback ip rw_ c h = elim (Bool-cases rw_.p2p) [
  | inl p2p ↦
      ap (λ b. if b then cancelled_by (load_and_delete (by_ip ip) c.connections) c else c) p2p
      ∙ ap (λ r. cancelled_by r c) (not_found ip c.connections h)
  | inr other ↦
      ap (λ b. if b then cancelled_by (load_and_delete (by_ip ip) c.connections) c else c) other
]

registered-ByDestination :
    (stream ip : ℕ) (r : Destination ℕ × Bool) (c : Client)
    → ByDestination c.connections
    → ByDestination (registered stream ip r c).connections
unfolding registered cancel_all close_stream
registered-ByDestination stream ip (d, true) c h = store-ByDestination ip stream c.connections h
registered-ByDestination stream ip (d, false) c h = h

replaced-ByDestination :
    (stream ip : ℕ) (d : Option (Destination ℕ)) (c : Client)
    → ByDestination c.connections
    → ByDestination (replace_at stream ip d c).connections
unfolding replace_at start_receiving
replaced-ByDestination stream ip none c h = h
replaced-ByDestination stream ip (some d) c h =
    registered-ByDestination stream ip (replace_tx (p2p_instead stream) d)
      (start_receiving stream c) h

run-ByDestination :
    (events : List Event) (c : Client)
    → ByDestination c.connections
    → ByDestination (run events c).connections
unfolding replace_p2p
run-ByDestination [] c h = h
run-ByDestination (replaces stream ip ∷ events) c h =
    run-ByDestination events (replace_p2p stream ip c)
      (replaced-ByDestination stream ip (find ip c.destinations) c h)
run-ByDestination (falls_back ip rw_ ∷ events) c h =
    run-ByDestination events (on_fallback ip rw_ c)
      (subst (λ d. ByDestination d.connections) (sym (unchanged_by_fallback ip rw_ c h)) h)

-- From a client without peer-to-peer connections, after any replacements and fallbacks,
-- `OnFallback` changes nothing: the receive loop of the stream that failed is not cancelled, the
-- stream not closed, and its entry stays, since it looks under the address for what is stored under
-- the destination.
pub on_fallback-keeps :
    (events : List Event) (c : Client) (ip : ℕ) (failed : Conn)
    → c.connections ≡ []
    → on_fallback ip failed (run events c) ≡ run events c
on_fallback-keeps events c ip failed fresh =
    unchanged_by_fallback ip failed (run events c)
      (run-ByDestination events c (subst ByDestination (sym fresh) tt))
