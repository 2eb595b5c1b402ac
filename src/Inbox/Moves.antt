-- ===== src/Inbox/Moves.antt =====
-- The accesses of executor.hpp that move a task to a worker's inbox.
use my_async_lib.Base.{
  ℕ, ◌≡◌, ◌≢◌, refl, sym, subst, ap, ◌∙◌, List, ◌∷◌, ◌==◌, count, arith, Bool-cases, inl, inr,
  eq_of_==, ◌⊎◌,
}
use my_async_lib.Base.Store.{Store, Chain, write, Seg-write, write_self, write_ne}
use my_async_lib.Inbox.{State, Push, absent, started, seen, linked, Unpark, at}
use my_async_lib.Inbox.Chains.{in_flight, Linked, Sees-filled, Inv, rest_of}

abbrev pub Holding : State → Type 0
Holding s = (xs : List ℕ) × (ys : List ℕ) × Inv xs ys s

Linked-write :
    (next : Store) (task v a : ℕ) (push : Push)
    → (a ≢ task) ⊎ (in_flight push ≡ 0)
    → Linked next a push
    → Linked (write next task v) a push
Linked-write next task v a absent out h = tt
Linked-write next task v a started out h = tt
Linked-write next task v a (seen old) out h = tt
Linked-write next task v a (linked old) (inl ne) h = write_ne next task v a ne ∙ h
Linked-write next task v a (linked old) (inr none_yet) h = absurd (omega (arith, none_yet))

-- A write to the `next` field of a task that no call has.
pub Linked-apart :
    (next : Store) (task value : ℕ) (pushes : ℕ → Push)
    → in_flight (pushes task) ≡ 0
    → ((v : ℕ) → Linked next v (pushes v))
    → (v : ℕ) → Linked (write next task value) v (pushes v)
Linked-apart next task value pushes out all v = elim (Bool-cases (task == v)) [
  | inl here ↦
      let same : in_flight (pushes v) ≡ in_flight (pushes task) =
        ap (λ j. in_flight (pushes j)) (sym (eq_of_== task v here)) in
      Linked-write next task value v (pushes v) (inr (same ∙ out)) (all v)
  | inr there ↦ Linked-write next task value v (pushes v) (inl (ground (arith, there))) (all v)
]

pub started-Inv :
    {xs ys : List ℕ} {s : State} (task : ℕ)
    → Inv xs ys s
    → task ≢ 0
    → s.pushes task ≡ absent
    → count task s.pushed ≡ count task s.delivered
    → Inv xs ys (record s { pushes = at s.pushes task started; pushed = task ∷ s.pushed })
started-Inv {s} task h ne e new =
    let before = ap in_flight e in
    record {
      chain = h.chain;
      rest = h.rest;
      sees = h.sees;
      linked = λ v. elim (Bool-cases (task == v)) [
        | inl here ↦ rw here tt
        | inr there ↦ rw there (h.linked v)
      ];
      null = ground (arith, h.null);
      balance = λ v. elim (Bool-cases (task == v)) [
        | inl here ↦ ground (arith, h.balance v, before, here)
        | inr there ↦ ground (arith, h.balance v, there)
      ];
      once = λ v. elim (Bool-cases (task == v)) [
        | inl here ↦ ground (arith, h.once v, new, here)
        | inr there ↦ ground (arith, h.once v, there)
      ];
    }

pub linked-Inv :
    {xs ys : List ℕ} {s : State} (task old : ℕ)
    → Inv xs ys s
    → s.pushes task ≡ seen old
    → Inv xs ys (record s { next = write s.next task old; pushes = at s.pushes task (linked old) })
linked-Inv {xs} {ys} {s} task old h e =
    let before = ap in_flight e in
    let b = h.balance task in
    let o = h.once task in
    record {
      chain = Seg-write s.next 0 s.inbox task old xs h.chain (omega (arith, before, b, o));
      rest = Seg-write s.next 0 (rest_of s.worker) task old ys h.rest (omega (arith, before, b, o));
      sees = h.sees;
      linked = λ v. elim (Bool-cases (task == v)) [
        | inl here ↦
            rw here
              (ap (write s.next task old) (sym (eq_of_== task v here)) ∙ write_self s.next task old)
        | inr there ↦
            rw there (
              Linked-write s.next task old v (s.pushes v) (inl (ground (arith, there)))
                (h.linked v))
      ];
      null = ground (arith, h.null, before);
      balance = λ v. elim (Bool-cases (task == v)) [
        | inl here ↦ ground (arith, h.balance v, before, here)
        | inr there ↦ ground (arith, h.balance v, there)
      ];
      once = h.once;
    }

pub won-Inv :
    {xs ys : List ℕ} {s : State} (task old : ℕ) (unparks : ℕ → Unpark)
    → Inv xs ys s
    → s.pushes task ≡ linked old
    → s.inbox ≡ old
    → Inv
        (task ∷ xs)
        ys
        (record s { inbox = task; pushes = at s.pushes task absent; unparks = unparks })
won-Inv {xs} {ys} {s} task old unparks h e top =
    let before = ap in_flight e in
    let ne : task ≢ 0 = λ z. ground (arith, z, before, h.null) in
    let next : s.next task ≡ old = subst (Linked s.next task) e (h.linked task) in
    record {
      chain = (refl, ne, subst (λ p. Chain s.next p xs) (top ∙ sym next) h.chain);
      rest = h.rest;
      sees = Sees-filled s.inbox task s.worker ne h.sees;
      linked = λ v. elim (Bool-cases (task == v)) [
        | inl here ↦ rw here tt
        | inr there ↦ rw there (h.linked v)
      ];
      null = ground (arith, h.null);
      balance = λ v. elim (Bool-cases (task == v)) [
        | inl here ↦ ground (arith, h.balance v, before, here)
        | inr there ↦ ground (arith, h.balance v, there)
      ];
      once = h.once;
    }
