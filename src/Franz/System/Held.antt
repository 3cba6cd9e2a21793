-- ===== src/Franz/System/Held.antt =====
-- What the requests in flight hold of the controller, summed, and updates of one request.
use kafka_rest_proxy_go.Common.{
  ℕ, zero, suc, ◌+◌, ◌≤◌, ◌≡◌, ap, subst, some, List, [], ◌∷◌, get_elem?, set, All, arith,
}
use kafka_rest_proxy_go.Common.Int.{ℤ}
use kafka_rest_proxy_go.Franz.Requests.{RequestState}
use kafka_rest_proxy_go.Franz.Requests.Callback.{held_by}
use kafka_rest_proxy_go.Franz.System.{Request}

module _ {ℓ κ} {A : Type ℓ} (P : A → Type κ) where
  pub All-get_elem? : (xs : List A) (i : ℕ) {x : A} → All P xs → get_elem? xs i ≡ some x → P x
  All-get_elem? [] i h e = cc
  All-get_elem? (y ∷ xs) zero {x} h e = let p : y ≡ x = cc in subst P p h.0
  All-get_elem? (y ∷ xs) (suc i) h e = All-get_elem? xs i h.1 e

  pub All-set : (xs : List A) (i : ℕ) {x : A} → All P xs → P x → All P (set xs i x)
  All-set [] i h p = tt
  All-set (y ∷ xs) zero h p = (p, h.1)
  All-set (y ∷ xs) (suc i) h p = (h.0, All-set xs i h.1 p)

module _ {E : Type 0} (amount : RequestState E → ℤ) where
  unfoldable pub held : List (Request E) → ℕ
  held [] = 0
  held (q ∷ qs) = held_by amount q.state + held qs

  pub held_by-le-held :
      (qs : List (Request E)) (i : ℕ) {q : Request E}
      → get_elem? qs i ≡ some q
      → held_by amount q.state ≤ held qs
  unfolding held
  held_by-le-held [] i e = cc
  held_by-le-held (r ∷ qs) zero {q} e =
      let p : r ≡ q = cc in omega (arith, ap (λ (r : Request E). held_by amount r.state) p)
  held_by-le-held (r ∷ qs) (suc i) {q} e = omega (arith, held_by-le-held qs i e)

  pub held-set :
      (qs : List (Request E)) (i : ℕ) (q q' : Request E)
      → get_elem? qs i ≡ some q
      → held (set qs i q') + held_by amount q.state ≡ held qs + held_by amount q'.state
  unfolding held
  held-set [] i q q' e = cc
  held-set (r ∷ qs) zero q q' e =
      let p : r ≡ q = cc in omega (arith, ap (λ (r : Request E). held_by amount r.state) p)
  held-set (r ∷ qs) (suc i) q q' e = omega (arith, held-set qs i q q' e)
