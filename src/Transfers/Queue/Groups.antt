-- ===== src/Transfers/Queue/Groups.antt =====
-- The grouped queue, against a description that does not loop over a dict.
use mathlib.Core.List.{append-nil, append_assoc}
use custody_service.Common.{
  ltb, ℕ, zero, suc, ◌+◌, ◌≤◌, String, ◌≡◌, ◌↔◌, refl, sym, ap, ◌∙◌, true, arith, Option, none,
  some, List, [], ◌∷◌, ◌++◌, length, take, select, same_text?, text_eq_iff, if◌then◌else◌,
  Bool-cases, inl, inr,
}
use custody_service.Models.{Transfer, Db}
use custody_service.Transfers.Queue.{
  Key, key_of, same_key, Groups, push, add_to_group, group_from, waiting_by_time,
  get_pending_balance_transfers_grouped,
}

same_text?_iff : (s t : Option String) → (same_text? s t ≡ true) ↔ (s ≡ t)
same_text?_iff none none = (λ _. refl, λ _. refl)
same_text?_iff none (some t) = (λ h. cc, λ h. cc)
same_text?_iff (some s) none = (λ h. cc, λ h. cc)
same_text?_iff (some s) (some t) =
    (λ h. ap some ((text_eq_iff s t).0 h), λ h. (text_eq_iff s t).1 (cc))

pub same_key_iff : (a b : Key) → (same_key a b ≡ true) ↔ (a ≡ b)
unfolding same_key
same_key_iff a b = (
  λ h. ground (
    arith,
    same_text?_iff a.contract_address b.contract_address,
    text_eq_iff a.blockchain b.blockchain,
  ),
  λ h. ground (
    arith,
    same_text?_iff a.contract_address b.contract_address,
    text_eq_iff a.blockchain b.blockchain,
  ),
)

-- The group of a key, empty if the dict has none.
pub group_of : Key → Groups → List Transfer
group_of k [] = []
group_of k ((j, ts) ∷ gs) = if same_key j k then ts else group_of k gs

group_of-add_to_group :
    (limit : ℕ) (k : Key) (t : Transfer) (gs : Groups)
    → group_of k (add_to_group limit t gs)
      ≡ (if same_key k (key_of t) then push limit t (group_of k gs) else group_of k gs)
unfolding group_of add_to_group
group_of-add_to_group limit k t [] =
    ground (arith, same_key_iff k (key_of t), same_key_iff (key_of t) k)
group_of-add_to_group limit k t ((j, ts) ∷ gs) = ground (
  arith,
  group_of-add_to_group limit k t gs,
  same_key_iff k (key_of t),
  same_key_iff j (key_of t),
  same_key_iff j k,
)

-- A group that grows by the rows of `ts`, up to the limit.
abbrev fill : ℕ → List Transfer → List Transfer → List Transfer
fill limit acc [] = acc
fill limit acc (t ∷ ts) = fill limit (push limit t acc) ts

pick : Key → List Transfer → List Transfer
pick k ts = select (λ t. same_key k (key_of t)) ts

group_of-group_from :
    (limit : ℕ) (k : Key) (ts : List Transfer) (gs : Groups)
    → group_of k (group_from limit ts gs) ≡ fill limit (group_of k gs) (pick k ts)
unfolding group_from pick
group_of-group_from limit k [] gs = refl
group_of-group_from limit k (t ∷ ts) gs = elim (Bool-cases (same_key k (key_of t))) [
  | inl e ↦
      rw
        (
          group_of-group_from limit k ts (add_to_group limit t gs),
          group_of-add_to_group limit k t gs,
          e,
        )
        refl
  | inr e ↦
      rw
        (
          group_of-group_from limit k ts (add_to_group limit t gs),
          group_of-add_to_group limit k t gs,
          e,
        )
        refl
]

length-snoc : (ts : List Transfer) (t : Transfer) → length (ts ++ t ∷ []) ≡ length ts + 1
length-snoc [] t = omega arith
length-snoc (u ∷ ts) t = omega (arith, length-snoc ts t)

fill_full : (limit : ℕ) (acc ts : List Transfer) → limit ≤ length acc → fill limit acc ts ≡ acc
fill_full limit acc [] h = refl
fill_full limit acc (t ∷ ts) h = ground (arith, fill_full limit acc ts h)

fill-take :
    (limit room : ℕ) (acc ts : List Transfer)
    → length acc + room ≡ limit
    → fill limit acc ts ≡ acc ++ take room ts
fill-take limit zero acc ts h = fill_full limit acc ts (omega arith) ∙ sym (append-nil acc)
fill-take limit (suc room) acc [] h = sym (append-nil acc)
fill-take limit (suc room) acc (t ∷ ts) h =
    let fits : ltb (length acc) limit ≡ true = ground arith in
    rw (fits, fill-take limit room (acc ++ t ∷ []) ts (omega (arith, length-snoc acc t)))
      (append_assoc acc (t ∷ []) (take room ts))

-- For every key and every limit: the group of the key holds the first `limit` of the waiting
-- transfers with this contract and blockchain, the oldest first, and nothing else.
pub group_of-get_pending_balance_transfers_grouped :
    (limit : ℕ) (k : Key) (db : Db)
    → group_of k (get_pending_balance_transfers_grouped limit db)
      ≡ take limit (select (λ t. same_key k (key_of t)) (waiting_by_time db))
unfolding get_pending_balance_transfers_grouped pick group_of
group_of-get_pending_balance_transfers_grouped limit k db =
    group_of-group_from limit k (waiting_by_time db) [] ∙ fill-take limit limit [] _ (omega arith)
