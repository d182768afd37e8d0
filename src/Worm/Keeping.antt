-- ===== src/Worm/Keeping.antt =====
-- What survives in the store, whatever calls are made on its handles.
use external_database_audit.Base.{
  ℕ, String, ◌≡◌, ◌≢◌, refl, ap, sym, ◌∙◌, subst, ◌⊎◌, inl, inr, Bool, true, false, Option, none,
  some, List, [], ◌∷◌, str_eq, eq_iff, Bool-cases, Option-cases,
}
use external_database_audit.Base.Dict
use external_database_audit.Base.Dict.{get-set, get-delete}
use external_database_audit.Base.Lists.{All}
use external_database_audit.Base.Result.{Result, ok, err, or_throw, ◌>>=◌, >>=-eq-ok}
use external_database_audit.Worm.{
  ObjectLock, StoredObject, born, WormError, Store, put_back, drop_key, Call, put, read, inspect,
  extend, place_hold, lift_hold, delete, no_object, compliance, require, extended, expired,
  delete_expired, put_immutable, perform, run,
}

-- The object is there, with these bytes and a lock of this kind.
abbrev pub Kept : List ℕ → (ObjectLock → Type 0) → Option StoredObject → Type 0
Kept bytes P none = ⊥
Kept bytes P (some o) = (o.bytes ≡ bytes) × P o.lock

module _ (date_parse : String → Option ℕ) (P : ObjectLock → Type 0) where
  -- The lock of `key` stays of the kind `P` under a call.
  abbrev pub Allows : String → Call → Type 0
  Allows key (extend j until) =
      (lock new : ObjectLock) → P lock → extended date_parse until lock ≡ ok new → P new
  Allows key (place_hold j) = (lock : ObjectLock) → P lock → P (record lock { legal_hold = true })
  Allows key (lift_hold j) =
      (j ≢ key) ⊎ ((lock : ObjectLock) → P lock → P (record lock { legal_hold = false }))
  Allows key (delete j now) =
      (j ≢ key) ⊎ ((lock : ObjectLock) → P lock → expired date_parse now lock ≢ ok tt)
  Allows key _ = Unit

  module _ (key : String) (bytes : List ℕ) where
    put_back-Kept :
        (j : String) (r : Result WormError StoredObject) (s : Store)
        → ((o : StoredObject) → j ≡ key → r ≡ ok o → Kept bytes P (some o))
        → Kept bytes P (Dict.get key s.objects)
        → Kept bytes P (Dict.get key (put_back j r s).1.objects)
    put_back-Kept j (err e) s new old = old
    put_back-Kept j (ok o) s new old = rw get-set (elim (Bool-cases (str_eq j key)) [
      | inl same ↦ rw same (new o ((eq_iff _ _).0 same) refl)
      | inr other ↦ rw other old
    ])

    -- a method that stores the found object again, under a lock that keeps its kind
    changed-Kept :
        (found : Option StoredObject) (change : ObjectLock → Result WormError ObjectLock)
        {o : StoredObject}
        → ((lock new : ObjectLock) → P lock → change lock ≡ ok new → P new)
        → Kept bytes P found
        → (do
          old ← or_throw no_object found
          lock ← change old.lock
          ok (record old { lock = lock }))
          ≡ ok o
        → Kept bytes P (some o)
    changed-Kept none change stable h e = absurd h
    changed-Kept (some old) change {o} stable (b, p) e =
        let (lock, changed, e') = >>=-eq-ok (change old.lock) _ e in
        let p' : P lock = stable old.lock lock p changed in
        let same : record old { lock = lock } ≡ o = cc in rw (← same) (b, p')

    update-Kept :
        (j : String) (change : ObjectLock → Result WormError ObjectLock) (s : Store)
        → (j ≢ key) ⊎ ((lock new : ObjectLock) → P lock → change lock ≡ ok new → P new)
        → Kept bytes P (Dict.get key s.objects)
        → Kept bytes P (
            Dict.get key
              (put_back j
                (do o ← require j s; lock ← change o.lock; ok (record o { lock = lock }))
                s).1.objects)
    update-Kept j change s (inl other) h = put_back-Kept j _ s (λ o same e. absurd (other same)) h
    update-Kept j change s (inr stable) h =
        put_back-Kept j _ s
          (λ o same e. changed-Kept (Dict.get j s.objects) change stable (rw same h) e) h

    drop-Kept :
        (j : String) (r : Result WormError (Unit {0})) (s : Store)
        → (j ≡ key → r ≢ ok tt)
        → Kept bytes P (Dict.get key s.objects)
        → Kept bytes P (Dict.get key (drop_key date_parse j r s).1.objects)
    drop-Kept j (err e) s never h = h
    drop-Kept j (ok u) s never h = rw get-delete (elim (Bool-cases (str_eq j key)) [
      | inl same ↦ absurd (never ((eq_iff _ _).0 same) refl)
      | inr other ↦ rw other h
    ])

    -- a guard that refuses every lock of the kind refuses the kept object
    refused :
        (found : Option StoredObject) (guard : ObjectLock → Result WormError (Unit {0}))
        → ((lock : ObjectLock) → P lock → guard lock ≢ ok tt)
        → Kept bytes P found
        → (do o ← or_throw no_object found; guard o.lock) ≢ ok tt
    refused none guard never h = absurd h
    refused (some o) guard never (b, p) = never o.lock p

    delete-Kept :
        (j now : String) (s : Store)
        → (j ≢ key) ⊎ ((lock : ObjectLock) → P lock → expired date_parse now lock ≢ ok tt)
        → Kept bytes P (Dict.get key s.objects)
        → Kept bytes P (Dict.get key (delete_expired date_parse j now s).1.objects)
    unfolding delete_expired
    delete-Kept j now s (inl other) h = drop-Kept j _ s (λ same. absurd (other same)) h
    delete-Kept j now s (inr never) h =
        drop-Kept j _ s
          (λ same. refused (Dict.get j s.objects) (expired date_parse now) never (rw same h)) h

    put-Kept :
        (j : String) (b : List ℕ) (s : Store)
        → Kept bytes P (Dict.get key s.objects)
        → Kept bytes P (Dict.get key (put_immutable j b compliance s).1.objects)
    unfolding put_immutable
    put-Kept j b s h = elim (Option-cases (Dict.get j s.objects)) [
      | inl missing ↦
          let gone = λ (same : j ≡ key).
            subst (Kept bytes P) (ap (λ k. Dict.get k s.objects) (sym same) ∙ missing) h in
          rw missing
            (put_back-Kept j (ok (born b compliance s)) s (λ o same e. absurd (gone same)) h)
      | inr (o, found) ↦ rw found h
    ]

    set_hold :
        (lock : ObjectLock) (hold : Bool) {new : ObjectLock}
        → ◌≡◌ {A = Result WormError ObjectLock} (ok (record lock { legal_hold = hold })) (ok new)
        → P (record lock { legal_hold = hold })
        → P new
    set_hold lock hold {new} e p =
        let same : record lock { legal_hold = hold } ≡ new = cc in subst P same p

    perform-Kept :
        (c : Call) (s : Store)
        → Allows key c
        → Kept bytes P (Dict.get key s.objects)
        → Kept bytes P (Dict.get key (perform date_parse c s).objects)
    unfolding perform
    perform-Kept (put j b) s a h = put-Kept j b s h
    perform-Kept (read j) s a h = h
    perform-Kept (inspect j) s a h = h
    perform-Kept (extend j until) s a h = update-Kept j (extended date_parse until) s (inr a) h
    perform-Kept (place_hold j) s a h =
        update-Kept j (λ lock. ok (record lock { legal_hold = true })) s
          (inr (λ lock new p e. set_hold lock true e (a lock p))) h
    perform-Kept (lift_hold j) s (inl other) h =
        update-Kept j (λ lock. ok (record lock { legal_hold = false })) s (inl other) h
    perform-Kept (lift_hold j) s (inr a) h =
        update-Kept j (λ lock. ok (record lock { legal_hold = false })) s
          (inr (λ lock new p e. set_hold lock false e (a lock p))) h
    perform-Kept (delete j now) s a h = delete-Kept j now s a h

    pub run-Kept :
        (cs : List Call) (s : Store)
        → All (Allows key) cs
        → Kept bytes P (Dict.get key s.objects)
        → Kept bytes P (Dict.get key (run date_parse cs s).objects)
    unfolding run
    run-Kept [] s _ h = h
    run-Kept (c ∷ cs) s (a, later) h =
        run-Kept cs (perform date_parse c s) later (perform-Kept c s a h)
