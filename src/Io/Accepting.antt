-- ===== src/Io/Accepting.antt =====
-- The completions of an `Acceptor` (acceptor.hpp) and the requests that it submits.
use my_async_lib.Base.{
  ℕ, zero, suc, ap₂, sym, ◌≡◌, refl, ap, ◌∙◌, Bool, true, false, List, [], ◌∷◌, ◌++◌, if◌then◌else◌,
  replicate, ℤ, pos, ltb_ℤ, Bool-cases, inl, inr,
}
use my_async_lib.Io.{
  Sqe, Operation, Acceptor, start, on_complete, accept_result, submit_multishot_accept,
}

abbrev pub accept_request : Acceptor → Sqe
accept_request a = record {
  operation = Operation.multishot_accept_direct a.server_socket;
  fixed_file = false;
  file_index_alloc = true;
  user_data = a.address;
}

replicate-append :
    (n : ℕ) (r : Sqe) (rs : List Sqe) → replicate n r ++ (r ∷ rs) ≡ r ∷ (replicate n r ++ rs)
replicate-append zero r rs = refl
replicate-append (suc n) r rs = ap (λ qs. r ∷ qs) (replicate-append n r rs)

module _ (has_more : ℕ → Bool) where
  -- The completions of the accept requests, in order.
  abbrev pub completions : Acceptor → List (ℤ × ℕ) → Acceptor
  completions a [] = a
  completions a ((res, flags) ∷ cs) = completions (on_complete has_more a res flags) cs

  -- How many of them end their request.
  abbrev pub ended : List (ℤ × ℕ) → ℕ
  ended [] = 0
  ended ((res, flags) ∷ cs) = let rest = ended cs in if has_more flags then rest else suc rest

  -- The descriptors among their results, added to others, last one first.
  abbrev pub descriptors : List (ℤ × ℕ) → List ℤ → List ℤ
  descriptors [] fds = fds
  descriptors ((res, flags) ∷ cs) fds =
      descriptors cs (if ltb_ℤ res (pos 0) then fds else res ∷ fds)

  on_complete-more :
      (a : Acceptor) (res : ℤ) (flags : ℕ)
      → has_more flags ≡ true
      → on_complete has_more a res flags ≡ accept_result a res
  unfolding on_complete
  on_complete-more a res flags e = rw e

  on_complete-last :
      (a : Acceptor) (res : ℤ) (flags : ℕ)
      → has_more flags ≡ false
      → on_complete has_more a res flags ≡ start (accept_result a res)
  unfolding on_complete
  on_complete-last a res flags e = rw e

  -- A result leaves all but the descriptors alone.
  accept_result-kept :
      (a : Acceptor) (res : ℤ)
      → ((accept_result a res).requests ≡ a.requests)
        × (accept_request (accept_result a res) ≡ accept_request a)
        × ((accept_result a res).accepted
            ≡ (if ltb_ℤ res (pos 0) then a.accepted else res ∷ a.accepted))
  accept_result-kept a res = elim (Bool-cases (ltb_ℤ res (pos 0))) [
    | inl e ↦ rw e (refl, refl, refl)
    | inr e ↦ rw e (refl, refl, refl)
  ]

  abbrev pub Served : Acceptor → List (ℤ × ℕ) → Acceptor → Type 0
  Served a cs a' =
      (a'.accepted ≡ descriptors cs a.accepted)
      × (a'.requests ≡ replicate (ended cs) (accept_request a) ++ a.requests)

  -- After any list of completions of an acceptor's requests, the callback has been called with
  -- exactly the results that are not negative, in order, and a new multishot accept of the same
  -- socket and handler has been submitted for exactly each completion that ends its request.
  pub completions-Served : (cs : List (ℤ × ℕ)) (a : Acceptor) → Served a cs (completions a cs)
  unfolding start submit_multishot_accept
  completions-Served [] a = (refl, refl)
  completions-Served ((res, flags) ∷ cs) a = elim (Bool-cases (has_more flags)) [
    | inl e ↦
        let (fds, reqs) = completions-Served cs (accept_result a res) in
        (
          ap (λ b. (completions b cs).accepted) (on_complete-more a res flags e)
              ∙ fds
              ∙ ap (descriptors cs) kept.2,
          ap (λ b. (completions b cs).requests) (on_complete-more a res flags e)
              ∙ reqs
              ∙ ap₂ (λ r q. replicate (ended cs) r ++ q) kept.1 kept.0
              ∙ sym (count_more e),
        )
    | inr e ↦
        let (fds, reqs) = completions-Served cs (start (accept_result a res)) in
        (
          ap (λ b. (completions b cs).accepted) (on_complete-last a res flags e)
              ∙ fds
              ∙ ap (descriptors cs) kept.2,
          ap (λ b. (completions b cs).requests) (on_complete-last a res flags e)
              ∙ reqs
              ∙ ap₂ (λ r q. replicate (ended cs) r ++ (r ∷ q)) kept.1 kept.0
              ∙ replicate-append (ended cs) (accept_request a) a.requests
              ∙ sym (count_more e),
        )
  ]
    where
      kept :
          ((accept_result a res).requests ≡ a.requests)
          × (accept_request (accept_result a res) ≡ accept_request a)
          × ((accept_result a res).accepted
              ≡ (if ltb_ℤ res (pos 0) then a.accepted else res ∷ a.accepted))
      kept = accept_result-kept a res

      count_more :
          {b : Bool}
          → has_more flags ≡ b
          → replicate (ended ((res, flags) ∷ cs)) (accept_request a) ++ a.requests
            ≡ replicate (if b then ended cs else suc (ended cs)) (accept_request a) ++ a.requests
      count_more e =
          ap
            (λ b.
              replicate (if b then ended cs else suc (ended cs)) (accept_request a) ++ a.requests)
            e
