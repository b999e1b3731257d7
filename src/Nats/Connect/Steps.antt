-- ===== src/Nats/Connect/Steps.antt =====
-- When a source is built, and from what.
use iec104bridge.Base.{◌≡◌, ◌↔◌, refl, Option, none, some, List}
use iec104bridge.Base.Result.{ok, bind_iff, ok_or_iff}
use iec104bridge.Environment.{Text}
use iec104bridge.Config.{Config}
use iec104bridge.Nats.Connect.Urls.{Lists, nats_urls-Lists, Lists-nats_urls}
use iec104bridge.Nats.Connect.{
  deliver_new, ack_explicit, subject_or_all, nats_urls, build_consumer_config, NatsClient,
  connect_to_nats_with_credentials, connect_to_nats, open_jetstream_stream, get_or_create_consumer,
  consumer_messages, from_config,
}

module _ (nats : NatsClient) where
  -- The credentials that are used: those of the configured file, or none if no file is configured.
  abbrev pub Identifies : Option Text → Option nats.Credentials → Type 0
  Identifies none credentials = credentials ≡ none
  Identifies (some path) credentials =
      (c : nats.Credentials) × (nats.with_credentials_file path ≡ some c) × (credentials ≡ some c)

  connect_to_nats_iff :
      (path : Option Text) (urls : List Text) (nats_url : Text) (client : nats.Client)
      → (connect_to_nats nats path urls nats_url ≡ ok client) ↔ (
          (credentials : Option nats.Credentials) × Identifies path credentials
          × (nats.connect credentials urls ≡ some client))
  unfolding connect_to_nats connect_to_nats_with_credentials
  connect_to_nats_iff none urls nats_url client = (
    λ e. (none, refl, (ok_or_iff _ _ _).0 e),
    λ (credentials, i, e). (ok_or_iff _ _ _).1 (rw (← i) e),
  )
  connect_to_nats_iff (some path) urls nats_url client = (
    λ e.
        let (c, k, e1) = (bind_iff _ _ _).0 e in
        (some c, (c, (ok_or_iff _ _ _).0 k, refl), (ok_or_iff _ _ _).0 e1),
    λ (credentials, (c, k, i), e).
        (bind_iff _ _ _).1 (c, (ok_or_iff _ _ _).1 k, (ok_or_iff _ _ _).1 (rw (← i) e)),
  )

  -- A source of NATS is built exactly if the library takes each step in turn: it connects to the
  -- servers that stand between the commas of the URL, without the white space around them, with the
  -- credentials of the file if one is configured and never without them then; it finds the stream;
  -- it gives the durable consumer, which delivers new messages only, wants each acknowledged and
  -- has the configured filter; and it gives the messages of that consumer.
  pub from_config_iff :
      (config : Config) (messages : nats.Messages)
      → (from_config nats config ≡ ok messages) ↔ (
          (urls : List Text) × Lists config.nats_url urls
          × (client : nats.Client) × ((credentials : Option nats.Credentials) × Identifies
                config.nats_credentials_path credentials
              × (nats.connect credentials urls ≡ some client))
          × (stream : nats.Stream) × (nats.get_stream client config.nats_stream ≡ some stream)
          × (consumer : nats.Consumer) × (nats.get_or_create_consumer stream config.nats_consumer
                (record {
                  durable_name = some config.nats_consumer;
                  deliver_policy = deliver_new;
                  ack_policy = ack_explicit;
                  filter_subject = subject_or_all config.nats_subject_filter;
                })
              ≡ some consumer)
          × (nats.messages consumer ≡ some messages))
  unfolding from_config open_jetstream_stream get_or_create_consumer consumer_messages
      build_consumer_config
  from_config_iff config messages = (
    λ e.
        let (client, c, e1) = (bind_iff _ _ _).0 e in
        let (stream, s, e2) = (bind_iff _ _ _).0 e1 in
        let (consumer, k, e3) = (bind_iff _ _ _).0 e2 in
        (
          nats_urls config.nats_url,
          nats_urls-Lists config.nats_url,
          client,
          (connect_to_nats_iff _ _ _ client).0 c,
          stream,
          (ok_or_iff _ _ _).0 s,
          consumer,
          (ok_or_iff _ _ _).0 k,
          (ok_or_iff _ _ _).0 e3,
        ),
    λ (urls, listed, client, (credentials, i, c), stream, s, consumer, k, m). (bind_iff _ _ _).1 (
      client,
      (connect_to_nats_iff _ _ _ client).1
          (credentials, i, rw (Lists-nats_urls config.nats_url urls listed) c),
      (bind_iff _ _ _).1 (
        stream,
        (ok_or_iff _ _ _).1 s,
        (bind_iff _ _ _).1 (consumer, (ok_or_iff _ _ _).1 k, (ok_or_iff _ _ _).1 m),
      ),
    ),
  )
