-- ===== src/Schema/Enums.antt =====
-- The enumerations of prisma/schema.prisma.

-- Who cancelled: `CancelActor`.
pub data Actor : Type 0 where
  rider driver : Actor

pub data Role : Type 0 where
  rider driver admin restaurant : Role

pub data KycStatus : Type 0 where
  pending approved rejected : KycStatus

pub data DriverMode : Type 0 where
  ride food_errand : DriverMode

pub data VehicleType : Type 0 where
  bike rickshaw car : VehicleType

pub data FareType : Type 0 where
  fixed bid : FareType

pub data TripStatus : Type 0 where
  requested matching matched in_progress completed cancelled : TripStatus

pub data DeliveryStatus : Type 0 where
  requested matching matched picked_up in_transit delivered cancelled : DeliveryStatus

pub data FoodOrderStatus : Type 0 where
  placed accepted ready matching assigned picked_up delivered cancelled : FoodOrderStatus

pub data ErrandStatus : Type 0 where
  requested matching accepted shopping on_the_way delivered cancelled : ErrandStatus

-- `LedgerEntryType`
pub data EntryType : Type 0 where
  trip_payout delivery_payout delivery_cod_liability wallet_topup food_order_driver_payout :
      EntryType
  food_order_restaurant_payout errand_payout trip_tip trip_cash_collected : EntryType
  parcel_cod_credit wallet_withdrawal : EntryType

pub data RestaurantStatus : Type 0 where
  pending approved suspended : RestaurantStatus

-- `MatchScope`, and the type of a context
pub data MatchScope : Type 0 where
  trip delivery food_order errand : MatchScope

pub data IncidentType : Type 0 where
  sos accident harassment vehicle_breakdown other : IncidentType

pub data IncidentStatus : Type 0 where
  opened acknowledged resolved : IncidentStatus
