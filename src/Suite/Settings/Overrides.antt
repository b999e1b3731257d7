-- ===== src/Suite/Settings/Overrides.antt =====
-- The tests of variables that are set (config.rs).
use iec104bridge.Base.{◌≡◌, refl, true, false, some, []}
use iec104bridge.Environment.{codes}
use iec104bridge.Config.{unix_socket, from_secs}
use iec104bridge.Suite.{IsOk}
use iec104bridge.Suite.Settings.{insert, required, from_map}

CustomNatsUrl : Type 0
CustomNatsUrl =
    IsOk (from_map (insert (codes "NATS_URL") (codes "nats://nats.example.com:4222") required))
      (λ cfg. (cfg.nats_url ≡ codes "nats://nats.example.com:4222"))

custom_nats_url : CustomNatsUrl
unfolding CustomNatsUrl from_map
custom_nats_url = refl

CustomIec104Port : Type 0
CustomIec104Port =
    IsOk (from_map (insert (codes "IEC104_PORT") (codes "12345") required))
      (λ cfg. (cfg.iec104_port ≡ 12345))

custom_iec104_port : CustomIec104Port
unfolding CustomIec104Port from_map
custom_iec104_port = refl

CustomIec104QueueSize : Type 0
CustomIec104QueueSize =
    IsOk (from_map (insert (codes "IEC104_QUEUE_SIZE") (codes "4096") required))
      (λ cfg. (cfg.iec104_queue_size ≡ 4096))

custom_iec104_queue_size : CustomIec104QueueSize
unfolding CustomIec104QueueSize from_map
custom_iec104_queue_size = refl

CustomIec104Ca : Type 0
CustomIec104Ca =
    IsOk (from_map (insert (codes "IEC104_CA") (codes "42") required))
      (λ cfg. (cfg.iec104_default_ca ≡ 42))

custom_iec104_ca : CustomIec104Ca
unfolding CustomIec104Ca from_map
custom_iec104_ca = refl

CustomIec104MaxAge : Type 0
CustomIec104MaxAge =
    IsOk (from_map (insert (codes "IEC104_MAX_AGE_SECONDS") (codes "3600") required))
      (λ cfg. (cfg.iec104_max_age ≡ some (from_secs 3600)))

custom_iec104_max_age : CustomIec104MaxAge
unfolding CustomIec104MaxAge from_map
custom_iec104_max_age = refl

Iec104TimestampsCanBeDisabled : Type 0
Iec104TimestampsCanBeDisabled =
    IsOk (from_map (insert (codes "IEC104_TIMESTAMPS") (codes "false") required))
      (λ cfg. (cfg.iec104_timestamps ≡ false))

iec104_timestamps_can_be_disabled : Iec104TimestampsCanBeDisabled
unfolding Iec104TimestampsCanBeDisabled from_map
iec104_timestamps_can_be_disabled = refl

CustomIec104GiOnly : Type 0
CustomIec104GiOnly =
    IsOk (from_map (insert (codes "IEC104_GI_ONLY") (codes "yes") required))
      (λ cfg. (cfg.iec104_gi_only ≡ true))

custom_iec104_gi_only : CustomIec104GiOnly
unfolding CustomIec104GiOnly from_map
custom_iec104_gi_only = refl

CustomSubjectFilter : Type 0
CustomSubjectFilter =
    IsOk (from_map (insert (codes "NATS_SUBJECT_FILTER") (codes "plant.a.>") required))
      (λ cfg. (cfg.nats_subject_filter ≡ some (codes "plant.a.>")))

custom_subject_filter : CustomSubjectFilter
unfolding CustomSubjectFilter from_map
custom_subject_filter = refl

CustomBindAddr : Type 0
CustomBindAddr =
    IsOk (from_map (insert (codes "IEC104_BIND_ADDR") (codes "127.0.0.1") required))
      (λ cfg. (cfg.iec104_bind_addr ≡ codes "127.0.0.1"))

custom_bind_addr : CustomBindAddr
unfolding CustomBindAddr from_map
custom_bind_addr = refl

UnixSocketTransportDoesNotRequireNatsSettings : Type 0
UnixSocketTransportDoesNotRequireNatsSettings =
    IsOk (from_map (insert (codes "INPUT_TRANSPORT") (codes "unix_socket") [])) (λ cfg.
      (cfg.input_transport ≡ unix_socket) × (cfg.nats_stream ≡ []) × (cfg.nats_consumer ≡ []))

unix_socket_transport_does_not_require_nats_settings : UnixSocketTransportDoesNotRequireNatsSettings
unfolding UnixSocketTransportDoesNotRequireNatsSettings from_map
unix_socket_transport_does_not_require_nats_settings = (refl, refl, refl)

CustomUnixSocketSettings : Type 0
CustomUnixSocketSettings =
    IsOk
      (from_map (
        insert (codes "UNIX_SOCKET_MAX_LINE_BYTES") (codes "4096") (
          insert (codes "UNIX_SOCKET_ALLOWED_GID") (codes "456") (
            insert (codes "UNIX_SOCKET_ALLOWED_UID") (codes "123") (
              insert (codes "UNIX_SOCKET_PATH") (codes "/tmp/test.sock")
                (insert (codes "INPUT_TRANSPORT") (codes "unix_socket") []))))))
      (λ cfg.
        (cfg.unix_socket_path ≡ codes "/tmp/test.sock")
        × (cfg.unix_socket_allowed_uid ≡ some 123)
        × (cfg.unix_socket_allowed_gid ≡ some 456)
        × (cfg.unix_socket_max_line_bytes ≡ 4096))

custom_unix_socket_settings : CustomUnixSocketSettings
unfolding CustomUnixSocketSettings from_map
custom_unix_socket_settings = (refl, refl, refl, refl)
