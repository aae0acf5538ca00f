-- ===== src/Dispatch/Table.antt =====
-- `applyDeliveryEvent` and the other writes over the table of dispatches.
use afiliado_shopee.Prelude.{
  ℕ, zero, suc, Bool, ◌≡◌, refl, sym, ◌∙◌, List, [], ◌∷◌, All, select, take, text_eq, text_beq_iff,
  ◌==◌, Bool-cases, inl, inr, if◌then◌else◌,
}
use afiliado_shopee.Dispatch.{apply_delivery_event, correlates, replace_row}
use afiliado_shopee.Dispatch.Row.{Dispatch, DeliveryEvent}
use afiliado_shopee.Dispatch.Store.{Env}
use afiliado_shopee.Dispatch.Progress.{Follows, Follows-refl, apply_to_row-Follows}

-- The tables have the same rows in the same order, each later than before.
abbrev pub AllFollow : List Dispatch → List Dispatch → Type 0
AllFollow [] [] = Unit
AllFollow (a ∷ as') (b ∷ bs) = Follows a b × AllFollow as' bs
AllFollow _ _ = ⊥

-- `id` is the primary key.
abbrev pub SameRow : Dispatch → Dispatch → Type 0
SameRow d x = x.id ≡ d.id → x ≡ d

abbrev pub IsKeyed : List Dispatch → Type 0
IsKeyed rows = All (λ d. All (SameRow d) rows) rows

AllFollow-refl : (rows : List Dispatch) → AllFollow rows rows
AllFollow-refl [] = tt
AllFollow-refl (a ∷ rows) = (Follows-refl a, AllFollow-refl rows)

All-select :
    (P : Dispatch → Type 0) (p : Dispatch → Bool) (rows : List Dispatch)
    → All P rows
    → All P (select p rows)
All-select P p [] h = tt
All-select P p (x ∷ xs) h = elim (Bool-cases (p x)) [
  | inl hit ↦ rw hit (h.0, All-select P p xs h.1)
  | inr miss ↦ rw miss (All-select P p xs h.1)
]

All-take : (P : Dispatch → Type 0) (n : ℕ) (rows : List Dispatch) → All P rows → All P (take n rows)
All-take P zero rows h = tt
All-take P (suc n) [] h = tt
All-take P (suc n) (x ∷ xs) h = (h.0, All-take P n xs h.1)

replace_row-AllFollow :
    (d r : Dispatch) (rows : List Dispatch)
    → Follows d r
    → All (SameRow d) rows
    → AllFollow rows (replace_row r rows)
replace_row-AllFollow d r [] f h = tt
replace_row-AllFollow d r (x ∷ xs) f h = (here, replace_row-AllFollow d r xs f h.1)
  where
    here : Follows x (if x.id == r.id then r else x)
    here = elim (Bool-cases (x.id == r.id)) [
      | inl same ↦
          let e : x ≡ d = h.0 ((text_beq_iff x.id r.id).0 same ∙ sym f.id) in rw same (rw e f)
      | inr other ↦ rw other (Follows-refl x)
    ]

module _ (env : Env) (calm : (k : ℕ) (r : Dispatch) → Follows r (env k r))
    (input : DeliveryEvent) where
  applied-AllFollow :
      (rows found : List Dispatch)
      → All (λ d. All (SameRow d) rows) found
      → take 2 (select (correlates input) rows) ≡ found
      → AllFollow rows (apply_delivery_event env input rows).1
  unfolding apply_delivery_event
  applied-AllFollow rows [] h e = rw e (AllFollow-refl rows)
  applied-AllFollow rows (d ∷ []) h e = rw e (
      replace_row-AllFollow d _ rows
        (apply_to_row-Follows env calm input.status input.occurred_at 3 d
          (record { row = d; calls = 0 }))
        h.0)
  applied-AllFollow rows (d ∷ d' ∷ more) h e = rw e (AllFollow-refl rows)

  -- If `id` is a key of the table and every other writer moves the correlated row only forward,
  -- then a delivery event leaves every row of the table where it was or moves it forward: no status
  -- goes back, a send time once written is never changed, and no delivery or read time is erased.
  pub apply_delivery_event-AllFollow :
      (rows : List Dispatch) → IsKeyed rows → AllFollow rows (apply_delivery_event env input rows).1
  apply_delivery_event-AllFollow rows keyed =
      applied-AllFollow rows _ (All-take _ 2 _ (All-select _ (correlates input) rows keyed)) refl
