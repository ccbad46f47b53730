-- ===== src/Ingest/Sensor.antt =====
-- SocketDaim/ingestion_gateway/handler/sensor_handler.py and control_handler.py.
use dust_monitoring.Prelude.{
  ℕ, not, Option, none, some, bind, ◌∷◌, [], ◌++◌, if◌then◌else◌, Text, codes, equal,
}
use dust_monitoring.Gateway.Wire.{sensor_sample, error}
use dust_monitoring.Transfer.Floats.{Floats}
use dust_monitoring.Transfer.Response.{
  Json, object, text, Fields, end, field, get, truthy, to_float,
}
use dust_monitoring.Ingest.Message.{Message}
use dust_monitoring.Ingest.Tables.{
  SensorSample, invalid_payload, missing_station_name, bad_payload, unknown_station, peer_error,
  lookup_by_name, ask_for_station, log_error,
}
use dust_monitoring.Ingest.Handlers.{State, Reply, acked, silent, raised, refused, World}
use dust_monitoring.Ingest.Video.{refuse}

module _ {F : Type 0} where
  -- `data[k]`; `none` is `KeyError`.
  unfoldable pub find : Fields F → Text → Option (Json F)
  find end k = none
  find (field j v fs) k = let rest = find fs k in if equal j k then some v else rest

  -- `str(v)`
  abbrev pub str : World F → Json F → Text
  str w (text t) = t
  str w v = w.str v

  abbrev pub store_sample : World F → SensorSample F → State F → Reply × State F
  store_sample w r s =
      if w.takes r
      then (acked, record s { tables = record (s.tables) { samples = s.tables.samples ++ r ∷ [] } })
      else (raised, s)

  -- `handle_heartbeat`
  unfoldable pub handle_heartbeat : World F → State F → Reply × State F
  handle_heartbeat w s =
      (acked, record s { session = record (s.session) { last_heartbeat = w.monotonic } })

  -- `handle_error`: the peer's error is logged, and nothing is answered.
  unfoldable pub handle_error : State F → Reply × State F
  unfolding log_error
  handle_error s = (silent, record s { tables = log_error none error peer_error s.tables })

module _ {F : Type 0} ⦃fl : Floats F⦄ where
  -- The values of the row; `none` is `KeyError`, `ValueError` or `TypeError`.
  unfoldable pub sample_of : World F → ℕ → Fields F → Option (SensorSample F)
  unfolding find to_float
  sample_of w station_id fs = bind (find fs (codes "sampled_at")) (λ at.
      bind (w.isoformat (str w at)) (λ sampled_at.
        bind (find fs (codes "measurement_type")) (λ kind. bind (find fs (codes "value")) (λ v.
          bind (to_float v) (λ value. bind (find fs (codes "unit")) (λ unit. some (record {
            station_id = station_id;
            measurement_type = str w kind;
            value = value;
            unit = str w unit;
            sampled_at = sampled_at;
          })))))))

  abbrev pub sample_for : World F → Fields F → ℕ → State F → Reply × State F
  sample_for w fs station_id s = elim (sample_of w station_id fs) [
    | none ↦ refuse (some station_id) sensor_sample bad_payload s
    | some r ↦ store_sample w r s
  ]

  abbrev pub sample_named : World F → Fields F → Text → State F → Reply × State F
  sample_named w fs name s = elim (lookup_by_name name s.tables.stations) [
    | none ↦
        (refused unknown_station, record s { tables = ask_for_station sensor_sample name s.tables })
    | some station_id ↦ sample_for w fs station_id s
  ]

  abbrev pub sample_metadata : World F → Json F → State F → Reply × State F
  sample_metadata w (object fs) s =
      let name = get fs (codes "station_name") in
      if not (truthy name)
      then refuse none sensor_sample missing_station_name s
      else sample_named w fs (str w name) s
  sample_metadata w _ s = refuse none sensor_sample invalid_payload s

  -- `SensorHandler.handle`
  unfoldable pub handle_sample : World F → Message F → State F → Reply × State F
  unfolding get truthy lookup_by_name ask_for_station log_error sample_of
  handle_sample w message s = sample_metadata w message.metadata s
