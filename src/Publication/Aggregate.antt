-- ===== src/Publication/Aggregate.antt =====
-- The status of a request from those of its targets.
use afiliado_shopee.Prelude.{
  ◌≤◌, Bool, true, false, not, ◌||◌, ◌≡◌, ◌↔◌, refl, List, [], ◌∷◌, any, every, length, nat_beq,
  ltb, arith, if◌then◌else◌,
}
use afiliado_shopee.Publication.{
  TargetStatus, RequestStatus, is_target, is_active, is_terminal_target, count, sent, blocked,
  partial, aggregate_manual_publication_request_status, is_manual_publication_request_terminal,
}

count_le : (p : TargetStatus → Bool) (ss : List TargetStatus) → count p ss ≤ length ss
count_le p [] = omega arith
count_le p (s ∷ ss) = ground (arith, count_le p ss)

-- A count reaches the length exactly where every status passes.
count-every :
    (p : TargetStatus → Bool) (ss : List TargetStatus)
    → nat_beq (count p ss) (length ss) ≡ every p ss
count-every p [] = refl
count-every p (s ∷ ss) = ground (arith, count-every p ss, count_le p ss)

count-any : (p : TargetStatus → Bool) (ss : List TargetStatus) → ltb 0 (count p ss) ≡ any p ss
count-any p [] = refl
count-any p (s ∷ ss) = ground (arith, count-any p ss)

-- The request by what its targets are, without counts.
unfoldable pub summary : List TargetStatus → RequestStatus
summary ss =
    if any (λ s. is_target s TargetStatus.ambiguous) ss
    then RequestStatus.ambiguous
    else if any is_active ss
    then RequestStatus.processing
    else if every (λ s. is_target s sent) ss
    then RequestStatus.completed
    else if any (λ s. is_target s sent) ss
    then partial
    else if every (λ s. is_target s blocked) ss
    then RequestStatus.blocked
    else RequestStatus.failed

every-weaker :
    (p q : TargetStatus → Bool) (ss : List TargetStatus)
    → ((s : TargetStatus) → p s ≡ true → q s ≡ true)
    → every p ss ≡ true
    → every q ss ≡ true
every-weaker p q [] h e = refl
every-weaker p q (s ∷ ss) h e = ground (arith, h s, every-weaker p q ss h)

every-not-any :
    (p q : TargetStatus → Bool) (ss : List TargetStatus)
    → ((s : TargetStatus) → p s ≡ true → q s ≡ false)
    → every p ss ≡ true
    → any q ss ≡ false
every-not-any p q [] h e = refl
every-not-any p q (s ∷ ss) h e = ground (arith, h s, every-not-any p q ss h)

-- The status of a request says of its targets what its name says: the counts in the source amount to
-- the tests of `summary`, in its order.
pub aggregate-summary :
    (ss : List TargetStatus) → aggregate_manual_publication_request_status ss ≡ summary ss
unfolding aggregate_manual_publication_request_status summary
aggregate-summary ss =
    let blocked_terminal =
      every-weaker (λ s. is_target s blocked) is_terminal_target ss (λ s h. ground arith) in
    rw
      (
        count-every (λ s. is_target s sent) ss,
        count-any (λ s. is_target s sent) ss,
        count-every is_terminal_target ss,
      )
      (ground (arith, blocked_terminal))

-- A request is terminal unless a target is active and none is ambiguous; it is completed exactly
-- where every target is sent, which holds of no targets too.
pub aggregate-terminal_iff :
    (ss : List TargetStatus)
    → (is_manual_publication_request_terminal (aggregate_manual_publication_request_status ss)
        ≡ (any (λ s. is_target s TargetStatus.ambiguous) ss || not (any is_active ss)))
      × ((aggregate_manual_publication_request_status ss ≡ RequestStatus.completed)
          ↔ (every (λ s. is_target s sent) ss ≡ true))
unfolding summary
aggregate-terminal_iff ss =
    let p =
      every-not-any (λ s. is_target s sent) (λ s. is_target s TargetStatus.ambiguous) ss
        (λ s h. ground arith) in
    let q = every-not-any (λ s. is_target s sent) is_active ss (λ s h. ground arith) in
    rw (aggregate-summary ss) (ground arith, (λ h. ground arith, λ h. ground (arith, p h, q h)))
