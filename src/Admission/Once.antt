-- ===== src/Admission/Once.antt =====
-- How often the workflow of a run is asked for: what an admission, a recovery and a creation add to
-- the list of calls, and what they leave open.
use monidhackson.Base.{
  ℕ, ◌+◌, ◌≤◌, ◌≡◌, sym, subst, ◌∙◌, inl, inr, String, true, false, List, [], ◌∷◌, ◌++◌,
  if◌then◌else◌, text_eq, eq_iff, Bool-cases, arith,
}
use monidhackson.Runs.Types.{RunRecord}
use monidhackson.Runs.Store.{InMemoryRunStore}
use monidhackson.Runs.Store.Opening.{
  is_open, open_at, IsKeyed, Closes, Written, insert-Closes, open_at-found, open_at-insert,
}
use monidhackson.Scheduling.Calls.{Service, Call, start_analysis, start_cleanup, with_store, called}

abbrev is_start_of : String → Call → ℕ
is_start_of id (start_analysis j) = if text_eq j id then 1 else 0
is_start_of id (start_cleanup j) = 0

-- How often the analysis of a run was asked for.
unfoldable pub starts : String → List Call → ℕ
starts id [] = 0
starts id (c ∷ cs) = is_start_of id c + starts id cs

-- Those starts, and the one that an open run may still get.
unfoldable pub committed : String → Service → ℕ
committed id w = starts id w.calls + (if open_at id w.store then 1 else 0)

unfoldable pub AtMostOnce : Service → Type 0
AtMostOnce w = IsKeyed w.store × ((id : String) → committed id w ≤ 1)

starts-append :
    (id : String) (cs ds : List Call) → starts id (cs ++ ds) ≡ starts id cs + starts id ds
unfolding starts
starts-append id [] ds = omega arith
starts-append id (c ∷ cs) ds = omega (arith, starts-append id cs ds)

-- Closing runs and asking for other workflows commits nothing.
pub committed-Closes :
    (w w' : Service) → w'.calls ≡ w.calls → Closes w.store w'.store → AtMostOnce w → AtMostOnce w'
unfolding committed AtMostOnce Closes
committed-Closes w w' same (keyed, closes) (k, most) =
    (keyed k, λ id. rw same (ground (arith, closes id, most id)))

pub committed-cleanup :
    (id : String) (w : Service) → AtMostOnce w → AtMostOnce (called (start_cleanup id) w)
unfolding committed starts AtMostOnce
committed-cleanup id w (k, most) = (k, λ j. rw starts-append (omega (arith, most j)))

-- A dispatch claim that is granted pays for the start that follows it.
pub committed-start :
    (id : String) (w : Service) (s : InMemoryRunStore) (r u : RunRecord)
    → Written id w.store s r u
    → is_open r ≡ true
    → is_open u ≡ false
    → AtMostOnce w
    → AtMostOnce (called (start_analysis u.id) (with_store w s))
unfolding committed starts AtMostOnce Closes
committed-start id w s r u (e, same, written) was_open is_closed (k, most) =
    let (keyed, closes) = insert-Closes id r u w.store s e (same, λ h. cc) written in
    let before = open_at-found id w.store r e ∙ was_open in
    let after = open_at-insert id w.store s u written ∙ is_closed in
    let name = same ∙ k id r e in
    (
      keyed k,
      λ j. rw starts-append (elim (Bool-cases (text_eq u.id j)) [
        | inl hit ↦
            let at : id ≡ j = sym name ∙ (eq_iff u.id j).0 hit in
            let m = most j in
            let b = subst (λ i. open_at i w.store ≡ true) at before in
            let a = subst (λ i. open_at i s ≡ false) at after in rw (hit, a) (ground (arith, b, m))
        | inr miss ↦ let m = most j in let c = closes j in rw miss (ground (arith, m, c))
      ]),
    )
