-- ===== src/Nats/Connect.antt =====
-- Connecting to NATS (source.rs, `NatsSource::from_config` and its helpers): the list of servers, the
-- credentials, the stream and the consumer. The client library async_nats is a parameter.
pub mod Urls
pub mod Steps
use iec104bridge.Base.{
  ℕ, Bool, true, false, ◌&&◌, ◌||◌, Option, none, some, List, [], ◌∷◌, map, leb, ◌==◌,
  if◌then◌else◌,
}
use iec104bridge.Base.Result.{Result, ok, err, ◌>>=◌, ok_or}
use iec104bridge.Environment.{Text}
use iec104bridge.Config.{Config}

-- `char::is_whitespace`: the code points with the Unicode property White_Space.
unfoldable pub is_whitespace : ℕ → Bool
is_whitespace c =
    (leb 9 c && leb c 13)
    || c == 32
    || c == 133
    || c == 160
    || c == 5760
    || (leb 8192 c && leb c 8202)
    || c == 8232
    || c == 8233
    || c == 8239
    || c == 8287
    || c == 12288

trim_start : Text → Text
unfolding is_whitespace
trim_start [] = []
trim_start (c ∷ cs) = let rest = trim_start cs in if is_whitespace c then rest else c ∷ cs

-- One character and the rest behind it, which is trimmed at its end already.
put_before : ℕ → Text → Text
unfolding is_whitespace
put_before c [] = if is_whitespace c then [] else c ∷ []
put_before c (d ∷ ds) = c ∷ d ∷ ds

trim_end : Text → Text
unfolding put_before
trim_end [] = []
trim_end (c ∷ cs) = put_before c (trim_end cs)

-- `str::trim`
unfoldable pub trim : Text → Text
unfolding trim_start trim_end
trim t = trim_start (trim_end t)

abbrev before_first : ℕ → List Text → List Text
before_first c [] = (c ∷ []) ∷ []
before_first c (part ∷ parts) = (c ∷ part) ∷ parts

-- `split(',')`
unfoldable pub split_at_commas : Text → List Text
split_at_commas [] = [] ∷ []
split_at_commas (c ∷ cs) =
    let parts = split_at_commas cs in if c == b',' then [] ∷ parts else before_first c parts

unfoldable pub nats_urls : Text → List Text
unfolding trim split_at_commas
nats_urls nats_url = map trim (split_at_commas nats_url)

pub data NatsError : Type 0 where
  credentials_failed connect_failed stream_not_found consumer_failed : Text → NatsError
  messages_failed : NatsError

pub data DeliverPolicy : Type 0 where
  deliver_all deliver_new : DeliverPolicy

pub data AckPolicy : Type 0 where
  ack_explicit ack_none : AckPolicy

-- What the code sets of the configuration of a pull consumer; no filter is the empty subject.
pub record ConsumerConfig : Type 0 where
  pub durable_name : Option Text
  pub deliver_policy : DeliverPolicy
  pub ack_policy : AckPolicy
  pub filter_subject : Text

abbrev pub subject_or_all : Option Text → Text
subject_or_all none = []
subject_or_all (some filter) = filter

unfoldable pub build_consumer_config : Config → ConsumerConfig
build_consumer_config config = record {
  durable_name = some config.nats_consumer;
  deliver_policy = deliver_new;
  ack_policy = ack_explicit;
  filter_subject = subject_or_all config.nats_subject_filter;
}

-- What is used of async_nats; a connection is made without credentials or with those of a file.
pub record NatsClient : Type 1 where
  pub Credentials : Type 0
  pub Client : Type 0
  pub Stream : Type 0
  pub Consumer : Type 0
  pub Messages : Type 0
  pub with_credentials_file : Text → Option Credentials
  pub connect : Option Credentials → List Text → Option Client
  pub get_stream : Client → Text → Option Stream
  pub get_or_create_consumer : Stream → Text → ConsumerConfig → Option Consumer
  pub messages : Consumer → Option Messages

module _ (nats : NatsClient) where
  connect_to_nats_with_credentials : Text → List Text → Text → Result NatsError nats.Client
  connect_to_nats_with_credentials creds_path urls nats_url = do
    credentials ← ok_or (nats.with_credentials_file creds_path) (credentials_failed creds_path)
    ok_or (nats.connect (some credentials) urls) (connect_failed nats_url)

  connect_to_nats : Option Text → List Text → Text → Result NatsError nats.Client
  unfolding connect_to_nats_with_credentials
  connect_to_nats none urls nats_url = ok_or (nats.connect none urls) (connect_failed nats_url)
  connect_to_nats (some creds_path) urls nats_url =
      connect_to_nats_with_credentials creds_path urls nats_url

  open_jetstream_stream : nats.Client → Text → Result NatsError nats.Stream
  open_jetstream_stream client stream_name =
      ok_or (nats.get_stream client stream_name) (stream_not_found stream_name)

  get_or_create_consumer : nats.Stream → Text → ConsumerConfig → Result NatsError nats.Consumer
  get_or_create_consumer stream consumer_name consumer_config =
      ok_or (nats.get_or_create_consumer stream consumer_name consumer_config)
        (consumer_failed consumer_name)

  consumer_messages : nats.Consumer → Result NatsError nats.Messages
  consumer_messages consumer = ok_or (nats.messages consumer) messages_failed

  unfoldable pub from_config : Config → Result NatsError nats.Messages
  unfolding nats_urls connect_to_nats open_jetstream_stream build_consumer_config
      get_or_create_consumer consumer_messages
  from_config config = do
    client ←
        connect_to_nats config.nats_credentials_path (nats_urls config.nats_url) config.nats_url
    stream ← open_jetstream_stream client config.nats_stream
    consumer ← get_or_create_consumer stream config.nats_consumer (build_consumer_config config)
    consumer_messages consumer
