-- ===== src/Transfer/Tables.antt =====
-- The tables that PoolerTran reads and writes, as the SQL of its repositories sees them: the queue
-- and its sources in gateway_db, decision_record and transfer_dlq in decision_db.
use dust_monitoring.Prelude.{ℕ, Option, List, Text, ℤ}
use dust_monitoring.Transfer.Response.{Channel, Json}

-- A row of cctv_transfer_queue. Times are microseconds.
pub record Entry : Type 0 where
  pub frame_id : ℕ
  pub attempts : ℕ
  pub enqueued_at : ℕ
  pub dust_id : Option ℕ

pub record CctvFrame : Type 0 where
  pub id : ℕ
  pub amr_id : Option Text
  pub file_path : Option Text
  pub resolution : Option Text
  pub received_at : Option ℕ
  pub paired_at : Option ℕ

pub record Dust (F : Type 0) : Type 0 where
  pub id : ℕ
  pub dust_value : Option F
  pub dust_alarm : Option ℤ
  pub waypoint_id : Option ℤ
  pub target_id : Option ℤ
  pub mission_id : Option ℤ
  pub waypoint_x : Option F
  pub waypoint_y : Option F
  pub waypoint_z : Option F

-- `QueueRow`: a claimed queue row joined to its frame and its measurement.
pub record QueueRow (F : Type 0) : Type 0 where
  pub frame_id : ℕ
  pub attempts : ℕ
  pub enqueued_at : ℕ
  pub dust_id : Option ℕ
  pub cf_id : Option ℕ
  pub amr_id : Option Text
  pub file_path : Option Text
  pub resolution : Option Text
  pub received_at : Option ℕ
  pub paired_at : Option ℕ
  pub dust_value : Option F
  pub dust_alarm : Option ℤ
  pub waypoint_id : Option ℤ
  pub target_id : Option ℤ
  pub mission_id : Option ℤ
  pub waypoint_x : Option F
  pub waypoint_y : Option F
  pub waypoint_z : Option F

-- The columns of decision_record that PoolerTran writes. `station_id` is the text
-- "{amr_id}:wp{waypoint_id}", kept here as its two parts; `final_decision` is 'pending' by default.
pub record Decision (F : Type 0) : Type 0 where
  pub station_id : Text × ℤ
  pub observation_timestamp : ℕ
  pub dust_id : Option ℕ
  pub sensor_result : Channel
  pub anomaly_result : Channel
  pub object_result : Channel
  pub result_payload : Json F
  pub image_b64 : Option Text

-- A row of transfer_dlq.
pub record DeadLetter (F : Type 0) : Type 0 where
  pub frame_id : ℕ
  pub attempts : ℕ
  pub last_error : Text
  pub source_row : QueueRow F

pub record Stats : Type 0 where
  pub processed_ok : ℕ
  pub failed : ℕ
  pub dead_lettered : ℕ
  pub orphans_purged : ℕ
  pub waypoint_transitions : ℕ
  pub discarded_over_batch : ℕ

-- The databases, and the poller's own fields.
pub record State (F : Type 0) : Type 0 where
  pub queue : List Entry
  pub frames : List CctvFrame
  pub dusts : List (Dust F)
  pub decisions : List (Decision F)
  pub dead_letters : List (DeadLetter F)
  pub stats : Stats
  pub last_frame_id : Option ℕ
  pub last_dust_id : Option ℕ
  pub last_waypoint_by_amr : List (Text × ℤ)
