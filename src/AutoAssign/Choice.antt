-- ===== src/AutoAssign/Choice.antt =====
-- Which delivery is called: by the slot's order of goods, and then the longest in the queue.
use delivery_driver_manageme.Base.{
  ℕ, ◌<◌, ◌≡◌, sym, subst, ap, inl, inr, Bool, true, false, not, ◌&&◌, Option, none, some, List, [],
  ◌∷◌, ◌++◌, All, arith, Option-cases, select, first_by-none, first_by_least, select-nil,
  Memᴰ-first_by, Memᴰ-select, find_row_of_mem,
}
use delivery_driver_manageme.Schema.{waiting, status_eq, GoodsType, goods_eq, Slot, Delivery}
use delivery_driver_manageme.Store.{Db, IsKeyed, find_delivery, delivery_id, slot_unit_config_id}
use delivery_driver_manageme.SlotState.{occupancy, is_manual_slot_status}
use delivery_driver_manageme.AutoAssign.{
  is_waiting_for, queue_before, next_of_goods, next_of_candidates, candidate_goods_for_slot,
  find_next_waiting_delivery_for_slot, choose_delivery,
}

queue_before_asym : (a b : Delivery) → queue_before a b ≡ true → queue_before b a ≡ false
unfolding queue_before
queue_before_asym a b h = ground arith

queue_before_trans :
    (a b c : Delivery)
    → queue_before b a ≡ false
    → queue_before c b ≡ false
    → queue_before c a ≡ false
unfolding queue_before
queue_before_trans a b c h k = ground arith

module _ (locked : ℕ → Bool) (db : Db) (slot : Slot) (unit_config_id : Option ℕ) where
  -- What the query for one type of goods selects.
  abbrev pub suits : GoodsType → Delivery → Bool
  suits g d = is_waiting_for slot unit_config_id g d && not (locked d.id)

  -- Nothing in the queue suits the slot with these goods.
  abbrev pub NoneSuits : GoodsType → Type 0
  NoneSuits g = All (λ d. suits g d ≡ false) db.deliveries

  -- A delivery is the right one for a list of goods: nothing suits with goods that stand before its
  -- own, it suits with its own, and no other such delivery stands before it in the queue.
  pub record IsNext (goods : List GoodsType) (d : Delivery) : Type 0 where
    pub prior : List GoodsType
    pub following : List GoodsType
    pub split : goods ≡ prior ++ (d.goods_type ∷ following)
    pub none_prior : All NoneSuits prior
    pub stored : find_delivery d.id db ≡ some d
    pub fits : suits d.goods_type d ≡ true
    pub first : All (λ x. queue_before x d ≡ false) (select (suits d.goods_type) db.deliveries)

  next_of_goods-none :
      (g : GoodsType) → next_of_goods locked db slot unit_config_id g ≡ none → NoneSuits g
  unfolding next_of_goods
  next_of_goods-none g h = select-nil (suits g) db.deliveries (first_by-none queue_before _ h)

  goods_type-suits : (g : GoodsType) (d : Delivery) → suits g d ≡ true → d.goods_type ≡ g
  unfolding is_waiting_for
  goods_type-suits g d h = ground arith

  pub status-suits : (g : GoodsType) (d : Delivery) → suits g d ≡ true → d.status ≡ waiting
  unfolding is_waiting_for
  status-suits g d h = ground arith

  next_of_goods-some :
      (g : GoodsType) (d : Delivery)
      → IsKeyed db
      → next_of_goods locked db slot unit_config_id g ≡ some d
      → (find_delivery d.id db ≡ some d)
        × (suits g d ≡ true)
        × All (λ x. queue_before x d ≡ false) (select (suits g) db.deliveries)
  unfolding next_of_goods
  next_of_goods-some g d k h =
      let (m, t) = Memᴰ-select (suits g) db.deliveries d (Memᴰ-first_by queue_before _ d h) in
      (
        find_row_of_mem delivery_id db.deliveries d k.deliveries_unique m,
        t,
        first_by_least queue_before queue_before_asym queue_before_trans _ d h,
      )

  pub next_of_candidates-IsNext :
      (goods : List GoodsType) (d : Delivery)
      → IsKeyed db
      → next_of_candidates locked db slot unit_config_id goods ≡ some d
      → IsNext goods d
  unfolding next_of_candidates
  next_of_candidates-IsNext [] d k h = cc
  next_of_candidates-IsNext (g ∷ gs) d k h =
      elim (Option-cases (next_of_goods locked db slot unit_config_id g)) [
        | inl e ↦
            let n = next_of_candidates-IsNext gs d k (rw (e, next_of_candidates) at h) in
            record {
              prior = g ∷ n.prior;
              following = n.following;
              split = ap (λ l. g ∷ l) n.split;
              none_prior = (next_of_goods-none g e, n.none_prior);
              stored = n.stored;
              fits = n.fits;
              first = n.first;
            }
        | inr (x, e) ↦
            let (stored, fits, first) = next_of_goods-some g x k e in
            let same_row : x ≡ d = cc (stored, rw (e, next_of_candidates) at h) in
            let own : x.goods_type ≡ g = goods_type-suits g x fits in
            subst (IsNext (g ∷ gs)) same_row (record {
              prior = [];
              following = gs;
              split = rw own;
              none_prior = tt;
              stored = stored;
              fits = subst (λ y. suits y x ≡ true) (sym own) fits;
              first =
                  subst (λ y. All (λ z. queue_before z x ≡ false) (select (suits y) db.deliveries))
                    (sym own) first;
            })
      ]

  pub next_of_candidates-none :
      (goods : List GoodsType)
      → IsKeyed db
      → next_of_candidates locked db slot unit_config_id goods ≡ none
      → All NoneSuits goods
  unfolding next_of_candidates
  next_of_candidates-none [] k h = tt
  next_of_candidates-none (g ∷ gs) k h =
      elim (Option-cases (next_of_goods locked db slot unit_config_id g)) [
        | inl e ↦
            (next_of_goods-none g e, next_of_candidates-none gs k (rw (e, next_of_candidates) at h))
        | inr (x, e) ↦
            let (stored, _, _) = next_of_goods-some g x k e in
            let h' : find_delivery x.id db ≡ none = rw (e, next_of_candidates) at h in cc
      ]

-- What the guards of `assignNextDeliveryToSlot` ask of the slot.
pub record IsOpen (db : Db) (slot : Slot) (unit : ℕ) : Type 0 where
  pub own_unit : slot.assigned_unit ≡ unit
  pub active : slot.is_active ≡ true
  pub automatic : slot.auto_assign ≡ true
  pub not_manual : is_manual_slot_status slot.status ≡ false
  pub has_room : occupancy slot.id db < slot.max_capacity

module _ (locked : ℕ → Bool) (db : Db) (slot : Slot) (unit : ℕ) where
  pub choose_delivery-IsOpen :
      (d : Delivery)
      → choose_delivery locked db slot unit ≡ some d
      → IsOpen db slot unit
        × (d.status ≡ waiting)
        × (find_next_waiting_delivery_for_slot locked db slot (slot_unit_config_id slot db)
            ≡ some d)
  unfolding choose_delivery
  choose_delivery-IsOpen d h = (ground arith, ground arith, ground arith)

  choose_delivery-some :
      (d : Delivery)
      → IsOpen db slot unit
      → d.status ≡ waiting
      → find_next_waiting_delivery_for_slot locked db slot (slot_unit_config_id slot db) ≡ some d
      → choose_delivery locked db slot unit ≡ some d
  unfolding choose_delivery
  choose_delivery-some d o w e = ground arith

  pub choose_delivery-none :
      IsOpen db slot unit
      → choose_delivery locked db slot unit ≡ none
      → IsKeyed db
      → All (NoneSuits locked db slot (slot_unit_config_id slot db)) (candidate_goods_for_slot slot)
  unfolding find_next_waiting_delivery_for_slot
  choose_delivery-none o h k =
      elim (Option-cases
        (find_next_waiting_delivery_for_slot locked db slot (slot_unit_config_id slot db))) [
          | inl e ↦ next_of_candidates-none locked db slot _ (candidate_goods_for_slot slot) k e
          | inr (d, e) ↦
              let n =
                next_of_candidates-IsNext locked db slot _ (candidate_goods_for_slot slot) d k e in
              let w =
                status-suits locked db slot (slot_unit_config_id slot db) d.goods_type d n.fits in
              cc (h, choose_delivery-some d o w e)
        ]

  -- The delivery that is chosen for a slot goes into an open slot with room, is waiting, and is the
  -- next one by the slot's order of goods and then by the queue.
  pub choose_delivery-IsNext :
      (d : Delivery)
      → IsKeyed db
      → choose_delivery locked db slot unit ≡ some d
      → IsOpen db slot unit
        × (d.status ≡ waiting)
        × IsNext locked db slot (slot_unit_config_id slot db) (candidate_goods_for_slot slot) d
  unfolding find_next_waiting_delivery_for_slot
  choose_delivery-IsNext d k h =
      let (o, w, e) = choose_delivery-IsOpen d h in
      (o, w, next_of_candidates-IsNext locked db slot _ (candidate_goods_for_slot slot) d k e)
