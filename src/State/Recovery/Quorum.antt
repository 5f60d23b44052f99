-- ===== src/State/Recovery/Quorum.antt =====
-- What stands behind a recovery that completes: the guardians who approved it one after another.
use vanargand.Common.{
  ℕ, suc, ◌+◌, ◌≤◌, ◌≡◌, ◌≢◌, refl, sym, ap, subst, ◌∙◌, true, false, none, some, arith, Result, ok,
  List, [], ◌∷◌, and_then, and_then-ok, ok_injective,
}
use vanargand.Common.Lists.{length, All}
use vanargand.Common.Map.{Set, lookup, contains, insert, place}
use vanargand.Common.Map.Keys.{nat_key}
use vanargand.Common.Map.Laws.{lookup-insert, lookup-insert_self}
use vanargand.Types.Tx.{AccountId, VerifyingKey}
use vanargand.Types.Window.{ContestationWindow}
use vanargand.State.Recovery.{RecoveryBook, RecoveryError, PendingRecovery, approve, finalise}
use vanargand.State.Recovery.Laws.{same_key→eq, finalise-ok}

-- The arguments of one call of `approve`, on an account that all calls share.
pub record Approval : Type 0 where
  pub key : VerifyingKey
  pub guardian : AccountId
  pub guardians : Set AccountId
  pub window : ContestationWindow

-- Approvals in a row, of which none fails.
unfoldable pub approve_all :
    RecoveryBook → AccountId → List Approval → Result RecoveryError RecoveryBook
approve_all b target [] = ok b
approve_all b target (s ∷ rest) =
    and_then (approve b target s.key s.guardian s.guardians s.window)
      λ b'. approve_all b' target rest

-- No guardian comes twice.
abbrev pub AreDistinct : List Approval → Type 0
AreDistinct [] = Unit
AreDistinct (s ∷ rest) = All (λ t. t.guardian ≢ s.guardian) rest × AreDistinct rest

abbrev IsNew : PendingRecovery → Approval → Type 0
IsNew p s =
    (s.key ≡ p.new_root_key)
    × (contains s.guardian s.guardians ≡ true)
    × (contains s.guardian p.approvals ≡ false)

length-place : (k : AccountId) (m : Set AccountId) → length (place k tt m) ≡ suc (length m)
unfolding place
length-place k [] = refl
length-place k ((j, w) ∷ m) = ground (arith, length-place k m)

length-insert_new :
    (k : AccountId) (m : Set AccountId)
    → contains k m ≡ false
    → length (insert k tt m) ≡ suc (length m)
unfolding insert
length-insert_new k m h = rw h (length-place k m)

abbrev join : PendingRecovery → Approval → PendingRecovery
join p s = record p { approvals = insert s.guardian tt p.approvals }

approve-join :
    (b b' : RecoveryBook) (target : AccountId) (p : PendingRecovery) (s : Approval)
    → lookup target b.pending ≡ some p
    → approve b target s.key s.guardian s.guardians s.window ≡ ok b'
    → (lookup target b'.pending ≡ some (join p s)) × IsNew p s
unfolding approve
approve-join b b' target p s found h = (
  ground (arith, found, lookup-insert_self target (join p s) b.pending),
  (
    sym (same_key→eq p.new_root_key s.key (ground (arith, found))),
    ground (arith, found),
    ground (arith, found),
  ),
)

before_join :
    (p : PendingRecovery) (s t : Approval)
    → IsNew (join p s) t
    → IsNew p t × (t.guardian ≢ s.guardian)
before_join p s t (same, member, fresh) =
    let looked = lookup-insert s.guardian t.guardian tt p.approvals in
    ((same, member, ground (arith, looked)), λ e. ground (arith, looked, e))

before_join_list :
    (p : PendingRecovery) (s : Approval) (rest : List Approval)
    → All (IsNew (join p s)) rest
    → All (IsNew p) rest × All (λ t. t.guardian ≢ s.guardian) rest
before_join_list p s [] h = (tt, tt)
before_join_list p s (t ∷ rest) (new, others) =
    let (old, apart) = before_join p s t new in
    let (olds, aparts) = before_join_list p s rest others in ((old, olds), (apart, aparts))

approve_all-pending :
    (b b' : RecoveryBook) (target : AccountId) (p : PendingRecovery) (steps : List Approval)
    → lookup target b.pending ≡ some p
    → approve_all b target steps ≡ ok b'
    → (p' : PendingRecovery) × (lookup target b'.pending ≡ some p')
      × (p'.new_root_key ≡ p.new_root_key)
      × (p'.window ≡ p.window)
      × (length p'.approvals ≡ length p.approvals + length steps)
      × All (IsNew p) steps
      × AreDistinct steps
unfolding approve_all
approve_all-pending b b' target p [] found h = (
  p,
  ap (λ c. lookup target c.pending) (sym (ok_injective h)) ∙ found,
  refl,
  refl,
  omega arith,
  tt,
  tt,
)
approve_all-pending b b' target p (s ∷ rest) found h =
    let (c, approved, others) =
      and_then-ok (approve b target s.key s.guardian s.guardians s.window) _ b' h in
    let (joined, new) = approve-join b c target p s found approved in
    let (p', last, key, window, count, news, distinct) =
      approve_all-pending c b' target (join p s) rest joined others in
    let (olds, apart) = before_join_list p s rest news in
    let one = length-insert_new s.guardian p.approvals new.2 in
    (p', last, key, window, omega (arith, count, one), (new, olds), (apart, distinct))

approve-first :
    (b b' : RecoveryBook) (target : AccountId) (s : Approval)
    → lookup target b.pending ≡ none
    → approve b target s.key s.guardian s.guardians s.window ≡ ok b'
    → (contains s.guardian s.guardians ≡ true)
      × (lookup target b'.pending
          ≡ some (record {
            new_root_key = s.key;
            approvals = insert s.guardian tt [];
            window = s.window;
          }))
unfolding approve
approve-first b b' target s absent h =
    let p : PendingRecovery = record {
      new_root_key = s.key;
      approvals = insert s.guardian tt [];
      window = s.window;
    } in
    (ground (arith, absent), ground (arith, absent, lookup-insert_self target p b.pending))

same_keys :
    (p : PendingRecovery) (key : VerifyingKey) (steps : List Approval)
    → p.new_root_key ≡ key
    → All (IsNew p) steps
    → All (λ s. (s.key ≡ key) × (contains s.guardian s.guardians ≡ true)) steps
same_keys p key [] same news = tt
same_keys p key (s ∷ rest) same ((k, member, fresh), news) =
    ((k ∙ same, member), same_keys p key rest same news)

apart_from_first :
    (p : PendingRecovery) (s : Approval) (steps : List Approval)
    → p.approvals ≡ insert s.guardian tt []
    → All (IsNew p) steps
    → All (λ t. t.guardian ≢ s.guardian) steps
apart_from_first p s [] start news = tt
apart_from_first p s (t ∷ rest) start ((k, member, fresh), news) =
    let looked = lookup-insert s.guardian t.guardian tt [] in
    let out : contains t.guardian (insert s.guardian tt []) ≡ false =
      ap (λ m. contains t.guardian m) (sym start) ∙ fresh in
    (λ e. ground (arith, looked, out, e), apart_from_first p s rest start news)

-- A recovery that starts where none is pending, collects approvals that all succeed and then
-- completes has at least the threshold of them, each by a guardian of its call and no two by the
-- same, all for the key that is handed out; it completes no sooner than the whole window of the
-- first approval after that was opened, and then the account is in recovery no more.
pub recovery_quorum :
    (b b' b'' : RecoveryBook) (target : AccountId) (first : Approval) (rest : List Approval)
    (threshold height : ℕ) (key : VerifyingKey)
    → lookup target b.pending ≡ none
    → approve_all b target (first ∷ rest) ≡ ok b'
    → finalise b' target threshold height ≡ ok (key, b'')
    → (threshold ≤ length (first ∷ rest))
      × AreDistinct (first ∷ rest)
      × All (λ s. (s.key ≡ key) × (contains s.guardian s.guardians ≡ true)) (first ∷ rest)
      × (first.window.opened_at_finalized + first.window.duration ≤ height)
      × (lookup target b''.pending ≡ none)
unfolding approve_all lookup
recovery_quorum b b' b'' target first rest threshold height key absent collected completed =
    let (c, approved, others) =
      and_then-ok (approve b target first.key first.guardian first.guardians first.window) _ b'
        collected in
    let (member, opened) = approve-first b c target first absent approved in
    let p : PendingRecovery = record {
      new_root_key = first.key;
      approvals = insert first.guardian tt [];
      window = first.window;
    } in
    let (p', last, same_key, same_window, count, news, distinct) =
      approve_all-pending c b' target p rest opened others in
    let (q, found, enough, elapsed, handed, gone, _) =
      finalise-ok b' b'' target target threshold height key completed in
    let same : q ≡ p' = ground (arith, last, found) in
    let named : first.key ≡ key = sym (handed ∙ ap (λ r. r.new_root_key) same ∙ same_key) in
    let one = length-insert_new first.guardian [] refl in
    let size : length q.approvals ≡ length p'.approvals = ap (λ r. length r.approvals) same in
    let began : q.window ≡ first.window = ap (λ r. r.window) same ∙ same_window in
    (
      omega (arith, enough, size, count, one),
      (apart_from_first p first rest refl news, distinct),
      ((named, member), same_keys p key rest named news),
      subst (λ w. w.opened_at_finalized + w.duration ≤ height) began elapsed,
      gone,
    )
