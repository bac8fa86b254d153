-- ===== src/Replica/Agreement.antt =====
-- Where pages take turns and no write fails, the copy agrees with the session.
use coop_messenger.Prelude.{
  ◌≡◌, refl, ap, true, false, List, [], ◌∷◌, ◌++◌, all, arith, Bool-cases, inl, inr, ◌⊎◌,
}
use coop_messenger.Types.{Session}
use coop_messenger.Users.{exists, store, reset}
use coop_messenger.Replica.{
  Stores, Write, sync_put, store_put, delete_all, Client, put, finish, load, is_sync, Step, loaded,
  storing, resetting, done, failed, finished, next_put, next_finished, db, db_async, database_name,
}

abbrev Agrees : Stores → Type 0
Agrees s = s.replica ≡ s.local

-- The copy agrees when the writes that wait are done; a login or a logout is the last of them.
abbrev Settles : List Write → Session → Session → Type 0
Settles [] local replica = replica ≡ local
Settles (sync_put u t ∷ ws) local replica = Settles ws local (put (sync_put u t) replica)
Settles (store_put u t ∷ ws) local replica = ws ≡ []
Settles (delete_all ∷ ws) local replica = ws ≡ []

-- No login or logout is under way.
abbrev pub IsIdle : Client → Type 0
IsIdle c = (all is_sync c.waiting ≡ true) × (c.unfinished ≡ [])

-- A step, where a page is loaded, and a login or a logout begins, only if none is under way.
abbrev pub IsOrderly : {c c' : Client} → Step c c' → Type 0
IsOrderly {c} loaded = IsIdle c
IsOrderly {c} (storing u t) = IsIdle c
IsOrderly {c} resetting = IsIdle c
IsOrderly (done w ws e) = Unit
IsOrderly (failed w ws u t e) = Unit
IsOrderly (finished w xs ys e) = Unit

pub data Reach (c : Client) : Client → Type 0 where
  here : Reach c c
  next : {m n : Client} → Reach c m → (s : Step m n) → IsOrderly s → Reach c n

-- The first page is loaded, with whatever session there is; if there is none, there is no copy either.
abbrev pub first_load : Session → Session → Client
first_load local replica = load (record {
  stores = record { local = local; replica = replica };
  waiting = [];
  unfinished = [];
  write_failed = false;
})

-- Either nothing stands behind an `await`, or one login or logout does, with nothing else to come.
data Phase (c : Client) : Type 0 where
  settling : c.unfinished ≡ [] → Settles c.waiting c.stores.local c.stores.replica → Phase c
  finishing :
      (w : Write)
      → c.unfinished ≡ w ∷ []
      → c.waiting ≡ []
      → c.stores.replica ≡ finish w c.stores.local
      → Phase c

abbrev WillAgree : Client → Type 0
WillAgree c = c.write_failed ≡ false → Phase c

Settles-ask :
    (w : Write) (ws : List Write) (local replica : Session)
    → is_sync w ≡ false
    → all is_sync ws ≡ true
    → Settles (ws ++ w ∷ []) local replica
Settles-ask (sync_put u t) [] local replica h k = ground (arith, h)
Settles-ask (store_put u t) [] local replica h k = refl
Settles-ask delete_all [] local replica h k = refl
Settles-ask w (sync_put u t ∷ ws) local replica h k =
    Settles-ask w ws local (put (sync_put u t) replica) h (ground (arith, k))
Settles-ask w (store_put u t ∷ ws) local replica h k = ground (arith, k)
Settles-ask w (delete_all ∷ ws) local replica h k = ground (arith, k)

Settles-load :
    (ws : List Write) (local replica : Session)
    → all is_sync ws ≡ true
    → Settles (ws ++ sync_put local.username local.token ∷ []) local replica
unfolding put
Settles-load [] local replica k = refl
Settles-load (sync_put u t ∷ ws) local replica k =
    Settles-load ws local (put (sync_put u t) replica) (ground (arith, k))
Settles-load (store_put u t ∷ ws) local replica k = ground (arith, k)
Settles-load (delete_all ∷ ws) local replica k = ground (arith, k)

Settles-finish :
    (w : Write) (ws : List Write) (local replica : Session)
    → is_sync w ≡ false
    → Settles (w ∷ ws) local replica
    → (ws ≡ []) × (put w replica ≡ finish w local)
unfolding put finish store reset
Settles-finish (sync_put u t) ws local replica h k = ground (arith, h)
Settles-finish (store_put u t) ws local replica h k = (k, refl)
Settles-finish delete_all ws local replica h k = (k, refl)

Settles-sync :
    (w : Write) (ws : List Write) (local replica : Session)
    → is_sync w ≡ true
    → Settles (w ∷ ws) local replica
    → Settles ws local (put w replica)
Settles-sync (sync_put u t) ws local replica h k = k
Settles-sync (store_put u t) ws local replica h k = ground (arith, h)
Settles-sync delete_all ws local replica h k = ground (arith, h)

-- What stands in a list of one.
only : {A : Type 0} (v w : A) (xs ys : List A) → v ∷ [] ≡ xs ++ w ∷ ys → (v ≡ w) × (xs ++ ys ≡ [])
only v w [] ys e = ground (arith, e)
only v w (x ∷ []) ys e = ground (arith, e)
only v w (x ∷ y ∷ xs) ys e = ground (arith, e)

load-WillAgree : (c : Client) → IsIdle c → WillAgree c → WillAgree (load c)
unfolding load
load-WillAgree c (h, e) k = elim (Bool-cases (exists c.stores.local)) [
  | inl there ↦
      rw there (λ f. settling e (Settles-load c.waiting c.stores.local c.stores.replica h))
  | inr absent ↦ rw absent k
]

done-Phase :
    (w : Write) (ws : List Write) (c : Client)
    → c.waiting ≡ w ∷ ws
    → Phase c
    → Phase (next_put w ws c)
done-Phase w ws c e (settling none_left h) = elim (Bool-cases (is_sync w)) [
  | inl sync ↦
      settling (rw (sync, none_left) refl)
        (Settles-sync w ws c.stores.local c.stores.replica sync (rw e at h))
  | inr other ↦
      let (last, same) = Settles-finish w ws c.stores.local c.stores.replica other (rw e at h) in
      finishing w (rw (other, none_left) refl) last same
]
done-Phase w ws c e (finishing v f nothing same) = ground (arith, e, nothing)

finished-Phase :
    (w : Write) (xs ys : List Write) (c : Client)
    → c.unfinished ≡ xs ++ w ∷ ys
    → Phase c
    → Phase (next_finished w xs ys c)
finished-Phase w xs ys c e (settling none_left h) = absurd (nonempty xs (rw none_left at e))
  where
    nonempty : (xs : List Write) → ¬ ([] ≡ xs ++ w ∷ ys)
    nonempty [] e = ground (arith, e)
    nonempty (x ∷ xs) e = ground (arith, e)
finished-Phase w xs ys c e (finishing v f nothing same) =
    let (v_is_w, left) = only v w xs ys (rw f at e) in settling left (rw (nothing, ← v_is_w) same)

Step-WillAgree : {c c' : Client} (s : Step c c') → IsOrderly s → WillAgree c → WillAgree c'
Step-WillAgree {c} loaded h k = load-WillAgree c h k
Step-WillAgree {c} (storing u t) h k = λ f.
    settling h.1 (Settles-ask (store_put u t) c.waiting c.stores.local c.stores.replica refl h.0)
Step-WillAgree {c} resetting h k =
    λ f. settling h.1 (Settles-ask delete_all c.waiting c.stores.local c.stores.replica refl h.0)
Step-WillAgree {c} (done w ws e) h k = λ f. done-Phase w ws c e (k f)
Step-WillAgree {c} (failed w ws u t e) h k = λ f. absurd (ground (arith, f))
Step-WillAgree {c} (finished w xs ys e) h k = λ f. finished-Phase w xs ys c e (k f)

first_load-WillAgree :
    (local replica : Session)
    → (exists local ≡ true) ⊎ (replica ≡ local)
    → WillAgree (first_load local replica)
unfolding load put
first_load-WillAgree local replica (inl there) = rw there (λ f. settling refl refl)
first_load-WillAgree local replica (inr same) = elim (Bool-cases (exists local)) [
  | inl there ↦ rw there (λ f. settling refl refl)
  | inr absent ↦ rw absent (λ f. settling refl same)
]

Reach-WillAgree : {c c' : Client} → Reach c c' → WillAgree c → WillAgree c'
Reach-WillAgree here k = k
Reach-WillAgree (next r s h) k = Step-WillAgree s h (Reach-WillAgree r k)

agree : (c : Client) → c.waiting ≡ [] → c.unfinished ≡ [] → Phase c → Agrees c.stores
agree c rest idle (settling none_left h) = rw rest at h
agree c rest idle (finishing v f nothing same) = ground (arith, f, idle)

-- If at first there is a session, or neither a session nor a copy of another one, and if a page is
-- loaded, and a login or a logout begins, only while no login or logout is under way, then whenever no
-- write has failed so far, nothing waits for the database and nothing stands behind an `await`, the copy
-- is the session, and the service worker opens the database of the page.
pub Reach-Agrees :
    (local replica : Session) (c : Client)
    → (exists local ≡ true) ⊎ (replica ≡ local)
    → Reach (first_load local replica) c
    → c.write_failed ≡ false
    → c.waiting ≡ []
    → c.unfinished ≡ []
    → (c.stores.replica ≡ c.stores.local) × (db_async c ≡ db c)
unfolding db db_async
Reach-Agrees local replica c start r ok rest idle =
    let same : c.stores.replica ≡ c.stores.local =
      agree c rest idle (Reach-WillAgree r (first_load-WillAgree local replica start) ok) in
    (same, ap (λ (s : Session). database_name s.username) same)
