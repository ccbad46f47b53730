-- ===== src/Ingest/Session.antt =====
-- SocketDaim/ingestion_gateway/session.py: what a connection has buffered, and the registry.
use dust_monitoring.Prelude.{
  ℕ, Bool, Option, none, some, List, [], ◌∷◌, ◌==◌, if◌then◌else◌, length, Text, equal,
}
use dust_monitoring.Loas.Words.{Bytes}

-- A dictionary from the sequence numbers to the chunks, in the order of their insertion.
abbrev pub Chunks : Type 0
Chunks = List (ℕ × Bytes)

-- `chunks[seq] = body`
unfoldable pub put : ℕ → Bytes → Chunks → Chunks
put seq body [] = (seq, body) ∷ []
put seq body ((s, b) ∷ t) =
    let rest = put seq body t in if s == seq then (s, body) ∷ t else (s, b) ∷ rest

-- `chunks[seq]`; `none` is `KeyError`.
unfoldable pub chunk_at : ℕ → Chunks → Option Bytes
chunk_at seq [] = none
chunk_at seq ((s, b) ∷ t) = let rest = chunk_at seq t in if s == seq then some b else rest

pub record VideoBuffer : Type 0 where
  pub video_id : Text
  pub station_name : Text
  pub station_id : ℕ
  pub total_chunks : ℕ
  pub captured_at : Option Text
  pub amr_id : Option Text
  pub amr_position : Option Text
  pub source_format : Option Text
  pub chunks : Chunks
  pub total_size : ℕ

unfoldable pub received_count : VideoBuffer → ℕ
received_count buf = length buf.chunks

unfoldable pub is_complete : VideoBuffer → Bool
unfolding received_count
is_complete buf = received_count buf == buf.total_chunks

-- A dictionary by texts: of the buffers by their video, and of the sessions by their name.
abbrev pub Dict {ℓ} : Type ℓ → Type ℓ
Dict A = List (Text × A)

module _ {ℓ} {A : Type ℓ} where
  -- `d.get(k)`
  unfoldable pub get : Text → Dict A → Option A
  get k [] = none
  get k ((j, v) ∷ t) = let rest = get k t in if equal j k then some v else rest

  -- `d[k] = v`
  unfoldable pub set : Text → A → Dict A → Dict A
  set k v [] = (k, v) ∷ []
  set k v ((j, u) ∷ t) = let rest = set k v t in if equal j k then (j, v) ∷ t else (j, u) ∷ rest

  -- `d.pop(k, None)`
  unfoldable pub pop : Text → Dict A → Dict A
  pop k [] = []
  pop k ((j, u) ∷ t) = let rest = pop k t in if equal j k then t else (j, u) ∷ rest

pub record IngestionSession : Type 0 where
  pub video_buffers : Dict VideoBuffer
  pub connected_at : ℕ
  pub last_heartbeat : ℕ

abbrev pub SessionRegistry : Type 0
SessionRegistry = Dict IngestionSession

-- A session that `get_or_create` makes at the time `now`.
abbrev pub new_session : ℕ → IngestionSession
new_session now = record { video_buffers = []; connected_at = now; last_heartbeat = now }

abbrev found_or_new : ℕ → Option IngestionSession → IngestionSession
found_or_new now none = new_session now
found_or_new now (some s) = s

-- `get_or_create`: the session of a connection, which the registry has from then on.
unfoldable pub get_or_create : ℕ → Text → SessionRegistry → IngestionSession × SessionRegistry
unfolding get set
get_or_create now id sessions = let s = found_or_new now (get id sessions) in (s, set id s sessions)

unfoldable pub drop_session : Text → SessionRegistry → Option IngestionSession × SessionRegistry
unfolding get pop
drop_session id sessions = (get id sessions, pop id sessions)
