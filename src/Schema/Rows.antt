-- ===== src/Schema/Rows.antt =====
-- The rows of prisma/schema.prisma.
use novax_backend.Common.{ℕ, Bool, Option, List}
use novax_backend.Common.Text.{Text}
use novax_backend.Common.Int.{ℤ}
use novax_backend.Schema.Enums.{
  Actor, RestaurantStatus, Role, KycStatus, DriverMode, VehicleType, FareType, TripStatus,
  DeliveryStatus, FoodOrderStatus, ErrandStatus, EntryType, MatchScope, IncidentType,
  IncidentStatus,
}
use novax_backend.Fare.{DistanceSource}

-- `rating` is in hundredths of a star.
pub record User : Type 0 where
  pub phone : Text
  pub name : Option Text
  pub last_name : Option Text
  pub email : Option Text
  pub password_hash : Option Text
  pub address : Option Text
  pub role : Role
  pub kyc_status : KycStatus
  pub is_active : Bool
  pub is_test_account : Bool
  pub rating : ℕ
  pub loyalty_points : ℕ
  pub referral_code : Option Text
  pub referred_by_id : Option ℕ

-- The columns of a driver's profile that the application consists of.
pub record Documents : Type 0 where
  pub vehicle_type : Text
  pub vehicle_plate : Option Text
  pub cnic_number : Option Text
  pub cnic_front_url : Option Text
  pub cnic_back_url : Option Text
  pub license_doc_url : Option Text
  pub license_front_url : Option Text
  pub license_back_url : Option Text
  pub vehicle_doc_url : Option Text
  pub vehicle_photo_url : Option Text
  pub service_zone : Option Text
  pub payout_account_name : Option Text
  pub payout_account_number : Option Text
  pub emergency_contact_name : Option Text
  pub emergency_contact_phone : Option Text

pub record DriverProfile : Type 0 where
  pub documents : Documents
  pub submitted_for_review_at : Option ℕ
  pub is_online : Bool
  pub active_mode : DriverMode
  pub offers_sent : ℕ
  pub offers_accepted : ℕ
  pub offers_declined : ℕ
  pub trips_cancelled : ℕ
  pub last_offer_at : Option ℕ
  pub last_completed_at : Option ℕ
  pub last_heartbeat_at : Option ℕ

pub record Trip : Type 0 where
  pub rider_id : ℕ
  pub driver_id : Option ℕ
  pub status : TripStatus
  pub vehicle_type : VehicleType
  pub fare_type : FareType
  pub distance : ℕ
  pub distance_source : DistanceSource
  pub fare : Option ℕ
  pub quoted_fare : Option ℕ
  pub accepted_fare : Option ℕ
  pub final_fare : Option ℕ
  pub offered_fare : Option ℕ
  pub tip_amount : Option ℕ
  pub fare_drifted_at : Option ℕ
  pub is_test : Bool
  pub offer_count : ℕ
  pub no_driver_found_at : Option ℕ
  pub ops_alerted_at : Option ℕ
  pub ops_escalated_at : Option ℕ
  pub requested_at : ℕ
  pub matched_at : Option ℕ
  pub started_at : Option ℕ
  pub completed_at : Option ℕ
  pub cancelled_at : Option ℕ
  pub cancelled_by : Option Actor
  pub cancellation_fee : Option ℕ

pub record Delivery : Type 0 where
  pub sender_id : ℕ
  pub driver_id : Option ℕ
  pub status : DeliveryStatus
  pub distance : ℕ
  pub fare : Option ℕ
  pub cod_amount : Option ℕ
  pub matched_at : Option ℕ
  pub picked_up_at : Option ℕ
  pub delivered_at : Option ℕ
  pub cancelled_at : Option ℕ

-- One line of an order, with the price at the time of the order.
pub record FoodOrderItem : Type 0 where
  pub menu_item_id : ℕ
  pub price_snapshot : ℕ
  pub quantity : ℕ
  pub subtotal : ℕ

pub record FoodOrder : Type 0 where
  pub customer_id : ℕ
  pub restaurant_id : ℕ
  pub driver_id : Option ℕ
  pub status : FoodOrderStatus
  pub items_total : ℕ
  pub delivery_fee : ℕ
  pub total : ℕ
  pub items : List FoodOrderItem

-- `commission_rate` is in hundredths of a per cent.
pub record Restaurant : Type 0 where
  pub owner_id : ℕ
  pub status : RestaurantStatus
  pub is_open : Bool
  pub commission_rate : ℕ

pub record MenuItem : Type 0 where
  pub restaurant_id : ℕ
  pub price : ℕ
  pub is_available : Bool

pub record Errand : Type 0 where
  pub requester_id : ℕ
  pub driver_id : Option ℕ
  pub status : ErrandStatus
  pub service_fee : ℕ
  pub actual_spend : Option ℕ

-- The job that an entry of the ledger is about: one of four nullable columns.
pub data JobRef : Type 0 where
  no_job : JobRef
  trip_job delivery_job food_order_job errand_job : ℕ → JobRef

-- `commission_rate` is in hundredths of a per cent.
pub record LedgerEntry : Type 0 where
  pub user_id : ℕ
  pub entry_type : EntryType
  pub job : JobRef
  pub gross_amount : ℕ
  pub commission_rate : ℕ
  pub commission_amount : ℕ
  pub net_amount : ℤ
  pub created_at : ℕ

pub record Rating : Type 0 where
  pub trip_id : Option ℕ
  pub delivery_id : Option ℕ
  pub food_order_id : Option ℕ
  pub rater_id : ℕ
  pub ratee_id : ℕ
  pub score : ℕ

pub record OtpCode : Type 0 where
  pub user_id : ℕ
  pub code_hash : Text
  pub expires_at : ℕ
  pub consumed : Bool

pub record RefreshToken : Type 0 where
  pub user_id : ℕ
  pub token_hash : Text
  pub expires_at : ℕ
  pub revoked : Bool

pub record ChatMessage : Type 0 where
  pub context_type : MatchScope
  pub context_id : ℕ
  pub sender_id : ℕ
  pub body : Text
  pub delivered_at : Option ℕ
  pub read_at : Option ℕ

pub record Incident : Type 0 where
  pub user_id : ℕ
  pub incident_type : IncidentType
  pub status : IncidentStatus
  pub context_type : Option Text
  pub context_id : Option ℕ
  pub handled_by_id : Option ℕ
  pub handled_at : Option ℕ
