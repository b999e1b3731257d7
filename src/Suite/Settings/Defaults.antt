-- ===== src/Suite/Settings/Defaults.antt =====
-- The tests of the defaults of the configuration (config.rs).
use iec104bridge.Base.{◌≡◌, refl, true, false, none}
use iec104bridge.Environment.{codes}
use iec104bridge.Config.{nats}
use iec104bridge.Suite.{IsOk}
use iec104bridge.Suite.Settings.{required, from_map}

DefaultNatsUrl : Type 0
DefaultNatsUrl = IsOk (from_map required) (λ cfg. (cfg.nats_url ≡ codes "nats://localhost:4222"))

default_nats_url : DefaultNatsUrl
unfolding DefaultNatsUrl from_map
default_nats_url = refl

DefaultInputTransportIsNats : Type 0
DefaultInputTransportIsNats = IsOk (from_map required) (λ cfg. (cfg.input_transport ≡ nats))

default_input_transport_is_nats : DefaultInputTransportIsNats
unfolding DefaultInputTransportIsNats from_map
default_input_transport_is_nats = refl

DefaultIec104Port : Type 0
DefaultIec104Port = IsOk (from_map required) (λ cfg. (cfg.iec104_port ≡ 2404))

default_iec104_port : DefaultIec104Port
unfolding DefaultIec104Port from_map
default_iec104_port = refl

DefaultIec104Ca : Type 0
DefaultIec104Ca = IsOk (from_map required) (λ cfg. (cfg.iec104_default_ca ≡ 1))

default_iec104_ca : DefaultIec104Ca
unfolding DefaultIec104Ca from_map
default_iec104_ca = refl

DefaultIec104GiOnlyIsFalse : Type 0
DefaultIec104GiOnlyIsFalse = IsOk (from_map required) (λ cfg. (cfg.iec104_gi_only ≡ false))

default_iec104_gi_only_is_false : DefaultIec104GiOnlyIsFalse
unfolding DefaultIec104GiOnlyIsFalse from_map
default_iec104_gi_only_is_false = refl

DefaultBindAddr : Type 0
DefaultBindAddr = IsOk (from_map required) (λ cfg. (cfg.iec104_bind_addr ≡ codes "0.0.0.0"))

default_bind_addr : DefaultBindAddr
unfolding DefaultBindAddr from_map
default_bind_addr = refl

DefaultSubjectFilterIsNone : Type 0
DefaultSubjectFilterIsNone = IsOk (from_map required) (λ cfg. (cfg.nats_subject_filter ≡ none))

default_subject_filter_is_none : DefaultSubjectFilterIsNone
unfolding DefaultSubjectFilterIsNone from_map
default_subject_filter_is_none = refl

DefaultUnixSocketSettings : Type 0
DefaultUnixSocketSettings = IsOk (from_map required) (λ cfg.
    (cfg.unix_socket_path ≡ codes "/run/iec104bridge/input.sock")
    × (cfg.unix_socket_allowed_uid ≡ none)
    × (cfg.unix_socket_allowed_gid ≡ none)
    × (cfg.unix_socket_max_line_bytes ≡ 65536))

default_unix_socket_settings : DefaultUnixSocketSettings
unfolding DefaultUnixSocketSettings from_map
default_unix_socket_settings = (refl, refl, refl, refl)

DefaultIec104QueueSize : Type 0
DefaultIec104QueueSize = IsOk (from_map required) (λ cfg. (cfg.iec104_queue_size ≡ 1024))

default_iec104_queue_size : DefaultIec104QueueSize
unfolding DefaultIec104QueueSize from_map
default_iec104_queue_size = refl

DefaultIec104TimestampsIsTrue : Type 0
DefaultIec104TimestampsIsTrue = IsOk (from_map required) (λ cfg. (cfg.iec104_timestamps ≡ true))

default_iec104_timestamps_is_true : DefaultIec104TimestampsIsTrue
unfolding DefaultIec104TimestampsIsTrue from_map
default_iec104_timestamps_is_true = refl

DefaultIec104MaxAgeIsOff : Type 0
DefaultIec104MaxAgeIsOff = IsOk (from_map required) (λ cfg. (cfg.iec104_max_age ≡ none))

default_iec104_max_age_is_off : DefaultIec104MaxAgeIsOff
unfolding DefaultIec104MaxAgeIsOff from_map
default_iec104_max_age_is_off = refl

StreamAndConsumerAreStored : Type 0
StreamAndConsumerAreStored =
    IsOk (from_map required)
      (λ cfg. (cfg.nats_stream ≡ codes "sensors") × (cfg.nats_consumer ≡ codes "bridge"))

stream_and_consumer_are_stored : StreamAndConsumerAreStored
unfolding StreamAndConsumerAreStored from_map
stream_and_consumer_are_stored = (refl, refl)
