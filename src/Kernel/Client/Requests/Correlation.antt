-- ===== src/Kernel/Client/Requests/Correlation.antt =====
-- Which response ends which request (kernel/client.py).
use astraship.Base.{
  ℕ, String, ◌≡◌, ◌≢◌, refl, ◌∙◌, sym, ap, subst, ◌⊎◌, inl, inr, Bool, true, false, Option, none,
  some, List, [], ◌∷◌, ◌++◌, ◌==◌, arith, Bool-cases,
}
use astraship.Errors.{Error, ok, err}
use astraship.Value.{Value}
use astraship.Kernel.Protocol.{RequestId, RemoteError}
use astraship.Kernel.Client.{
  same_id, same_id-eq, put, Future, unresolved, resolved, failed, fail_future, fail_pending,
}
use astraship.Kernel.Client.Requests.{
  Progress, writing, waiting, over, Call, Received, System, id_of, set_call, end_call, opened,
  respond,
}

-- This answer was read, with this ID.
abbrev pub Answered : RequestId → Value → Option RemoteError → List Received → Type 0
Answered i v x [] = ⊥
Answered i v x (r ∷ rs) = (r ≡ record { request_id = i; result = v; error = x }) ⊎ Answered i v x rs

Answered-more :
    (i : RequestId) (v : Value) (x : Option RemoteError) (rs : List Received) (r : Received)
    → Answered i v x rs
    → Answered i v x (rs ++ r ∷ [])
Answered-more i v x [] r a = absurd a
Answered-more i v x (q ∷ rs) r (inl e) = inl e
Answered-more i v x (q ∷ rs) r (inr a) = inr (Answered-more i v x rs r a)

Answered-last :
    (r : Received) (rs : List Received) → Answered r.request_id r.result r.error (rs ++ r ∷ [])
Answered-last r [] = inl refl
Answered-last r (q ∷ rs) = inr (Answered-last r rs)

-- A request that is not over has a future, and an entry of `_pending` while that is unresolved.
abbrev pub IsTracked : Bool → Option Future → Type 0
IsTracked p f = (f ≢ none) × (f ≡ some unresolved → p ≡ true)

abbrev pub Sound : ℕ → List Received → Bool → Option Future → Progress → Type 0
Sound n rs p f (over (ok v)) = Answered (id_of n) v none rs
Sound n rs p f (over (err e)) = Unit
Sound n rs p f writing = IsTracked p f
Sound n rs p f waiting = IsTracked p f

abbrev pub SoundCall : ℕ → List Received → Bool → Option Future → Option Call → Type 0
SoundCall n rs p f none = Unit
SoundCall n rs p f (some k) = Sound n rs p f k.progress

pub record Inv (y : System) : Type 0 where
  pub open_futures :
      (i : RequestId) → y.client.pending i ≡ true → y.client.futures i ≡ some unresolved
  pub told :
      (i : RequestId) (v : Value) (x : Option RemoteError)
      → y.client.futures i ≡ some (resolved v x)
      → Answered i v x y.received
  pub sound :
      (n : ℕ)
      → SoundCall n y.received (y.client.pending (id_of n)) (y.client.futures (id_of n)) (y.calls n)

pub set_call-Inv :
    (n : ℕ) (k : Call) (q : Progress) (y : System)
    → Inv y
    → Sound n y.received (y.client.pending (id_of n)) (y.client.futures (id_of n)) q
    → Inv (set_call n k q y)
set_call-Inv n k q y v h = record {
  open_futures = v.open_futures;
  told = v.told;
  sound = λ m. elim (Bool-cases (n == m)) [
    | inl b ↦ rw b (
        subst
          (λ (j : ℕ).
            Sound j y.received (y.client.pending (id_of j)) (y.client.futures (id_of j)) q)
          (ground (arith, b)) h)
    | inr b ↦ rw b (v.sound m)
  ];
}

pub end_call-Inv :
    (n : ℕ) (k : Call) (e : Error) (y : System) → Inv y → Inv (end_call n k (err e) y)
end_call-Inv n k e y v = record {
  open_futures = λ i h. elim (Bool-cases (same_id (id_of n) i)) [
    | inl b ↦ absurd (ground (arith, h, b))
    | inr b ↦ v.open_futures i (ground (arith, h, b))
  ];
  told = v.told;
  sound = λ m. elim (Bool-cases (n == m)) [ inl b ↦ rw b tt | inr b ↦ rw b (v.sound m) ];
}

pub opened-Inv : (method : String) (y : System) → Inv y → Inv (opened method y)
opened-Inv method y v = record {
  open_futures = λ i h. elim (Bool-cases (same_id (id_of y.client.next_id) i)) [
    | inl b ↦ rw b refl
    | inr b ↦ rw b (v.open_futures i (ground (arith, h, b)))
  ];
  told = λ i w x h. elim (Bool-cases (same_id (id_of y.client.next_id) i)) [
    | inl b ↦ absurd (ground (arith, h, b))
    | inr b ↦ v.told i w x (ground (arith, h, b))
  ];
  sound = λ m. elim (Bool-cases (y.client.next_id == m)) [
    | inl b ↦ rw b ((λ e. absurd (cc)), λ e. refl)
    | inr b ↦ rw b (v.sound m)
  ];
}

Sound-more :
    (n : ℕ) (rs : List Received) (r : Received) (p : Bool) (f : Option Future) (o : Option Call)
    → SoundCall n rs p f o
    → SoundCall n (rs ++ r ∷ []) p f o
Sound-more n rs r p f none h = tt
Sound-more n rs r p f (some k) h = from k.progress h
  where
    from : (q : Progress) → Sound n rs p f q → Sound n (rs ++ r ∷ []) p f q
    from writing h = h
    from waiting h = h
    from (over (ok v)) h = Answered-more (id_of n) v none rs r h
    from (over (err e)) h = tt

-- The request whose future has got its answer.
Sound-done :
    (n : ℕ) (rs : List Received) (r : Received) (p p' : Bool) (f : Option Future) (v : Value)
    (x : Option RemoteError) (o : Option Call)
    → SoundCall n rs p f o
    → SoundCall n (rs ++ r ∷ []) p' (some (resolved v x)) o
Sound-done n rs r p p' f v x none h = tt
Sound-done n rs r p p' f v x (some k) h = from k.progress h
  where
    from : (q : Progress) → Sound n rs p f q → Sound n (rs ++ r ∷ []) p' (some (resolved v x)) q
    from writing h = ((λ e. absurd (cc)), λ e. absurd (cc))
    from waiting h = ((λ e. absurd (cc)), λ e. absurd (cc))
    from (over (ok u)) h = Answered-more (id_of n) u none rs r h
    from (over (err e)) h = tt

pub respond-Inv : (r : Received) (y : System) → Inv y → Inv (respond r y)
unfolding respond
respond-Inv r y v = elim (Bool-cases (y.client.pending r.request_id)) [
  | inr b ↦
      subst Inv {x = record y { received = y.received ++ r ∷ [] }} (ground (arith, b)) (record {
        open_futures = v.open_futures;
        told = λ i w x h. Answered-more i w x y.received r (v.told i w x h);
        sound = λ m. Sound-more m y.received r _ _ (y.calls m) (v.sound m);
      })
  | inl b ↦
      subst Inv
        {x = record y {
          client = record y.client {
            pending = put r.request_id false y.client.pending;
            futures = put r.request_id (some (resolved r.result r.error)) y.client.futures;
          };
          received = y.received ++ r ∷ [];
        }}
        (ground (arith, b, v.open_futures r.request_id b))
        (record {
          open_futures = λ i h. elim (Bool-cases (same_id r.request_id i)) [
            | inl c ↦ absurd (ground (arith, h, c))
            | inr c ↦ rw c (v.open_futures i (ground (arith, h, c)))
          ];
          told = λ i w x h. elim (Bool-cases (same_id r.request_id i)) [
            | inr c ↦ Answered-more i w x y.received r (v.told i w x (ground (arith, h, c)))
            | inl c ↦
                subst (λ (j : RequestId). Answered j w x (y.received ++ r ∷ []))
                  (same_id-eq r.request_id i c)
                  (transport_answer r y.received w x (ground (arith, h, c)))
          ];
          sound = λ m. elim (Bool-cases (same_id r.request_id (id_of m))) [
            | inl c ↦
                rw c (Sound-done m y.received r _ false _ r.result r.error (y.calls m) (v.sound m))
            | inr c ↦ rw c (Sound-more m y.received r _ _ (y.calls m) (v.sound m))
          ];
        })
]
  where
    transport_answer :
        (r : Received) (rs : List Received) (w : Value) (x : Option RemoteError)
        → some (resolved r.result r.error) ≡ some (resolved w x)
        → Answered r.request_id w x (rs ++ r ∷ [])
    transport_answer r rs w x h =
        let e : r.result ≡ w = ground (arith, h) in
        let f : r.error ≡ x = ground (arith, h) in
        subst (λ (u : Value). Answered r.request_id u x (rs ++ r ∷ [])) e
          (subst (λ (u : Option RemoteError). Answered r.request_id r.result u (rs ++ r ∷ [])) f
            (Answered-last r rs))

-- A future that fails was unresolved.
fail_future-resolved :
    (e : Error) (f : Option Future) (v : Value) (x : Option RemoteError)
    → fail_future e f ≡ some (resolved v x)
    → f ≡ some (resolved v x)
fail_future-resolved e none v x h = absurd (cc)
fail_future-resolved e (some unresolved) v x h = absurd (cc)
fail_future-resolved e (some (resolved u z)) v x h = h
fail_future-resolved e (some (failed z)) v x h = absurd (cc)

-- A request whose future has failed.
Sound-failed :
    (n : ℕ) (rs : List Received) (p p' : Bool) (f : Option Future) (e : Error) (o : Option Call)
    → f ≡ some unresolved
    → SoundCall n rs p f o
    → SoundCall n rs p' (fail_future e f) o
Sound-failed n rs p p' f e none u h = tt
Sound-failed n rs p p' f e (some k) u h = from k.progress h
  where
    done : fail_future e f ≡ some (failed e)
    done = ap (fail_future e) u

    not_none : some (failed e) ≢ none
    not_none g = cc

    not_open : some (failed e) ≢ some unresolved
    not_open g = cc

    from : (q : Progress) → Sound n rs p f q → Sound n rs p' (fail_future e f) q
    from writing h = ((λ g. not_none (sym done ∙ g)), λ g. absurd (not_open (sym done ∙ g)))
    from waiting h = ((λ g. not_none (sym done ∙ g)), λ g. absurd (not_open (sym done ∙ g)))
    from (over (ok v)) h = h
    from (over (err x)) h = tt

-- A request that has no entry of `_pending`.
Sound-idle :
    (n : ℕ) (rs : List Received) (p p' : Bool) (f : Option Future) (o : Option Call)
    → p ≡ false
    → SoundCall n rs p f o
    → SoundCall n rs p' f o
Sound-idle n rs p p' f none e h = tt
Sound-idle n rs p p' f (some k) e h = from k.progress h
  where
    from : (q : Progress) → Sound n rs p f q → Sound n rs p' f q
    from writing h = (h.0, λ g. absurd (let t : p ≡ true = h.1 g in cc))
    from waiting h = (h.0, λ g. absurd (let t : p ≡ true = h.1 g in cc))
    from (over (ok v)) h = h
    from (over (err x)) h = tt

pub fail_pending-Inv :
    (e : Error) (y : System) → Inv y → Inv (record y { client = fail_pending e y.client })
unfolding fail_pending
fail_pending-Inv e y v = record {
  open_futures = λ i h. absurd (cc);
  told = λ i w x h. elim (Bool-cases (y.client.pending i)) [
    | inl b ↦ v.told i w x (fail_future-resolved e (y.client.futures i) w x (ground (arith, h, b)))
    | inr b ↦ v.told i w x (ground (arith, h, b))
  ];
  sound = λ m. elim (Bool-cases (y.client.pending (id_of m))) [
    | inl b ↦
        rw b (
          Sound-failed m y.received _ false _ e (y.calls m) (v.open_futures (id_of m) b)
            (v.sound m))
    | inr b ↦ rw b (Sound-idle m y.received _ false _ (y.calls m) b (v.sound m))
  ];
}
