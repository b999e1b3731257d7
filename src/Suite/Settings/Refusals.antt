-- ===== src/Suite/Settings/Refusals.antt =====
-- The tests of configurations that are refused (config.rs).
use iec104bridge.Base.{[]}
use iec104bridge.Environment.{codes}
use iec104bridge.Suite.{IsErr}
use iec104bridge.Suite.Settings.{insert, remove, required, from_map}

MissingNatsStreamIsError : Type 0
MissingNatsStreamIsError = IsErr (from_map (remove (codes "NATS_STREAM") required))

missing_nats_stream_is_error : MissingNatsStreamIsError
unfolding MissingNatsStreamIsError from_map
missing_nats_stream_is_error = tt

MissingNatsConsumerIsError : Type 0
MissingNatsConsumerIsError = IsErr (from_map (remove (codes "NATS_CONSUMER") required))

missing_nats_consumer_is_error : MissingNatsConsumerIsError
unfolding MissingNatsConsumerIsError from_map
missing_nats_consumer_is_error = tt

ZeroIec104QueueSizeIsError : Type 0
ZeroIec104QueueSizeIsError =
    IsErr (from_map (insert (codes "IEC104_QUEUE_SIZE") (codes "0") required))

zero_iec104_queue_size_is_error : ZeroIec104QueueSizeIsError
unfolding ZeroIec104QueueSizeIsError from_map
zero_iec104_queue_size_is_error = tt

ZeroIec104MaxAgeIsError : Type 0
ZeroIec104MaxAgeIsError =
    IsErr (from_map (insert (codes "IEC104_MAX_AGE_SECONDS") (codes "0") required))

zero_iec104_max_age_is_error : ZeroIec104MaxAgeIsError
unfolding ZeroIec104MaxAgeIsError from_map
zero_iec104_max_age_is_error = tt

InvalidIec104TimestampsIsError : Type 0
InvalidIec104TimestampsIsError =
    IsErr (from_map (insert (codes "IEC104_TIMESTAMPS") (codes "sometimes") required))

invalid_iec104_timestamps_is_error : InvalidIec104TimestampsIsError
unfolding InvalidIec104TimestampsIsError from_map
invalid_iec104_timestamps_is_error = tt

InvalidInputTransportIsError : Type 0
InvalidInputTransportIsError =
    IsErr (from_map (insert (codes "INPUT_TRANSPORT") (codes "redis") required))

invalid_input_transport_is_error : InvalidInputTransportIsError
unfolding InvalidInputTransportIsError from_map
invalid_input_transport_is_error = tt

InvalidPortIsError : Type 0
InvalidPortIsError = IsErr (from_map (insert (codes "IEC104_PORT") (codes "not_a_number") required))

invalid_port_is_error : InvalidPortIsError
unfolding InvalidPortIsError from_map
invalid_port_is_error = tt

InvalidUnixSocketUidIsError : Type 0
InvalidUnixSocketUidIsError = IsErr (
    from_map (
      insert (codes "UNIX_SOCKET_ALLOWED_UID") (codes "abc")
        (insert (codes "INPUT_TRANSPORT") (codes "unix_socket") [])))

invalid_unix_socket_uid_is_error : InvalidUnixSocketUidIsError
unfolding InvalidUnixSocketUidIsError from_map
invalid_unix_socket_uid_is_error = tt

ZeroUnixSocketMaxLineBytesIsError : Type 0
ZeroUnixSocketMaxLineBytesIsError = IsErr (
    from_map (
      insert (codes "UNIX_SOCKET_MAX_LINE_BYTES") (codes "0")
        (insert (codes "INPUT_TRANSPORT") (codes "unix_socket") [])))

zero_unix_socket_max_line_bytes_is_error : ZeroUnixSocketMaxLineBytesIsError
unfolding ZeroUnixSocketMaxLineBytesIsError from_map
zero_unix_socket_max_line_bytes_is_error = tt

PortOutOfU16RangeIsError : Type 0
PortOutOfU16RangeIsError = IsErr (from_map (insert (codes "IEC104_PORT") (codes "99999") required))

port_out_of_u16_range_is_error : PortOutOfU16RangeIsError
unfolding PortOutOfU16RangeIsError from_map
port_out_of_u16_range_is_error = tt

InvalidCaIsError : Type 0
InvalidCaIsError = IsErr (from_map (insert (codes "IEC104_CA") (codes "not_a_number") required))

invalid_ca_is_error : InvalidCaIsError
unfolding InvalidCaIsError from_map
invalid_ca_is_error = tt
