-- ===== src/Schema/Enums.antt =====
-- The enumerations of backend/prisma/schema.prisma, each with its equality test.
use delivery_driver_manageme.Base.{ℕ, ◌≡◌, ◌==◌, arith, Eq, code_iff}

pub data DeliveryStatus : Type 0 where
  registered waiting called receiving auto_warehouse_receiving : DeliveryStatus
  completed cancelled expired incompleted : DeliveryStatus

pub data SlotStatus : Type 0 where
  available occupied reserved maintenance : SlotStatus

pub data GoodsType : Type 0 where
  fresh_food auto_warehouse general_goods thi_cong : GoodsType

pub data VehicleType : Type 0 where
  truck motorbike : VehicleType

pub data EventType : Type 0 where
  registered checked_in auto_assigned manual_called recalled reassigned_slot : EventType
  receiving_started auto_warehouse_receiving_started completed cancelled : EventType
  expired_no_show expired_waiting incompleted archived : EventType

pub data FinalStatus : Type 0 where
  completed cancelled expired incompleted : FinalStatus

pub data ActorType : Type 0 where
  user staff device system : ActorType

abbrev pub status_code : DeliveryStatus → ℕ
status_code DeliveryStatus.registered = 0
status_code waiting = 1
status_code called = 2
status_code receiving = 3
status_code auto_warehouse_receiving = 4
status_code DeliveryStatus.completed = 5
status_code DeliveryStatus.cancelled = 6
status_code DeliveryStatus.expired = 7
status_code DeliveryStatus.incompleted = 8

abbrev pub slot_status_code : SlotStatus → ℕ
slot_status_code available = 0
slot_status_code occupied = 1
slot_status_code reserved = 2
slot_status_code maintenance = 3

abbrev pub goods_code : GoodsType → ℕ
goods_code fresh_food = 0
goods_code auto_warehouse = 1
goods_code general_goods = 2
goods_code thi_cong = 3

abbrev pub vehicle_code : VehicleType → ℕ
vehicle_code truck = 0
vehicle_code motorbike = 1

abbrev pub event_code : EventType → ℕ
event_code EventType.registered = 0
event_code checked_in = 1
event_code auto_assigned = 2
event_code manual_called = 3
event_code recalled = 4
event_code reassigned_slot = 5
event_code receiving_started = 6
event_code auto_warehouse_receiving_started = 7
event_code EventType.completed = 8
event_code EventType.cancelled = 9
event_code expired_no_show = 10
event_code expired_waiting = 11
event_code EventType.incompleted = 12
event_code archived = 13

abbrev pub final_code : FinalStatus → ℕ
final_code FinalStatus.completed = 0
final_code FinalStatus.cancelled = 1
final_code FinalStatus.expired = 2
final_code FinalStatus.incompleted = 3

pub status_code-injective : (a b : DeliveryStatus) → status_code a ≡ status_code b → a ≡ b
status_code-injective a b h = ground arith

pub slot_status_code-injective :
    (a b : SlotStatus) → slot_status_code a ≡ slot_status_code b → a ≡ b
slot_status_code-injective a b h = ground arith

pub goods_code-injective : (a b : GoodsType) → goods_code a ≡ goods_code b → a ≡ b
goods_code-injective a b h = ground arith

pub vehicle_code-injective : (a b : VehicleType) → vehicle_code a ≡ vehicle_code b → a ≡ b
vehicle_code-injective a b h = ground arith

pub event_code-injective : (a b : EventType) → event_code a ≡ event_code b → a ≡ b
event_code-injective a b h = ground arith

pub final_code-injective : (a b : FinalStatus) → final_code a ≡ final_code b → a ≡ b
final_code-injective a b h = ground arith

instance abbrev pub status_eq : Eq DeliveryStatus
status_eq = record {
  eq = λ a b. status_code a == status_code b;
  eq_iff = code_iff status_code status_code-injective;
}

instance abbrev pub slot_status_eq : Eq SlotStatus
slot_status_eq = record {
  eq = λ a b. slot_status_code a == slot_status_code b;
  eq_iff = code_iff slot_status_code slot_status_code-injective;
}

instance abbrev pub goods_eq : Eq GoodsType
goods_eq = record {
  eq = λ a b. goods_code a == goods_code b;
  eq_iff = code_iff goods_code goods_code-injective;
}

instance abbrev pub vehicle_eq : Eq VehicleType
vehicle_eq = record {
  eq = λ a b. vehicle_code a == vehicle_code b;
  eq_iff = code_iff vehicle_code vehicle_code-injective;
}

instance abbrev pub event_eq : Eq EventType
event_eq = record {
  eq = λ a b. event_code a == event_code b;
  eq_iff = code_iff event_code event_code-injective;
}

instance abbrev pub final_eq : Eq FinalStatus
final_eq = record {
  eq = λ a b. final_code a == final_code b;
  eq_iff = code_iff final_code final_code-injective;
}
