-- ===== src/Pool/Order.antt =====
-- The order of the objects in the channel of common/pool/pool.go.
use mathlib.Core.Path.{ap₂}
use go_vnet.Base.{
  ℕ, zero, suc, ◌+◌, ◌≤◌, ◌<◌, ◌≡◌, refl, sym, ap, ◌∙◌, true, List, [], ◌∷◌, ◌++◌, append_assoc,
  append-nil, arith, length, length-append, ltb,
}
use go_vnet.Pool.{BufferedPool, get, put, size}

module _ {ℓ κ} {A : Type ℓ} {S : Type κ} (pool_get : S → A × S) (pool_put : A → S → S) where
  abbrev pub put_all : List A → BufferedPool A S → BufferedPool A S
  put_all [] p = p
  put_all (e ∷ es) p = put_all es (put pool_get pool_put e p)

  -- `n` calls of `Get`
  abbrev pub get_all : ℕ → BufferedPool A S → List A × BufferedPool A S
  get_all zero p = ([], p)
  get_all (suc n) p =
      let taken = get pool_get pool_put p in
      let rest = get_all n taken.1 in (taken.0 ∷ rest.0, rest.1)

  put-room :
      (e : A) (p : BufferedPool A S)
      → length p.ch < p.room
      → put pool_get pool_put e p ≡ record p { ch = p.ch ++ e ∷ [] }
  unfolding put
  put-room e p h =
      let open_channel : ltb (length p.ch) p.room ≡ true = ground (arith, h) in rw open_channel refl

  put_all-room :
      (es : List A) (p : BufferedPool A S)
      → length p.ch + length es ≤ p.room
      → put_all es p ≡ record p { ch = p.ch ++ es }
  put_all-room [] p h = ap (λ c. record p { ch = c }) (sym (append-nil p.ch))
  put_all-room (e ∷ es) p h =
      ap (put_all es) (put-room e p (omega arith))
      ∙ put_all-room es (record p { ch = p.ch ++ e ∷ [] })
          (omega (arith, length-append p.ch (e ∷ [])))
      ∙ ap (λ c. record p { ch = c }) (append_assoc p.ch (e ∷ []) es)

  get_all-held :
      (held : List A) (p : BufferedPool A S)
      → get_all (length held) (record p { ch = held }) ≡ (held, record p { ch = [] })
  unfolding get
  get_all-held [] p = refl
  get_all-held (e ∷ held) p = ap (λ r. (e ∷ r.0, r.1)) (get_all-held held p)

  -- If the channel has room for the objects that are put, then as many calls of `Get` as it holds
  -- afterwards return first the objects that it held before and then those, in their order; the
  -- `sync.Pool` behind is not touched.
  pub get_all-put_all :
      (es : List A) (p : BufferedPool A S)
      → length p.ch + length es ≤ p.room
      → get_all (size pool_get pool_put p + length es) (put_all es p)
        ≡ (p.ch ++ es, record p { ch = [] })
  unfolding size
  get_all-put_all es p h =
      ap₂ get_all (sym (length-append p.ch es)) (put_all-room es p h) ∙ get_all-held (p.ch ++ es) p
