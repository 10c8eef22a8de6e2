-- ===== src/Launcher/Options.antt =====
-- src/launcher.cpp: the description of the options, and `parseOptions`. The parser of the command line
-- is Boost's, and is a parameter: what it found is a function from the name of an option to its value.
pub mod RoundTrip
use arq_benchmark.Base.{
  ℕ, Bool, true, false, List, [], ◌∷◌, Option, none, some, String, is_some, if◌then◌else◌, Outcome,
  returns,
}
use arq_benchmark.Util.Logging
use arq_benchmark.Util.Logging.{Logger}
use arq_benchmark.Launcher.Config.{
  ArqProtocol, dummy_sctp, arq_protocol_to_string, LauncherConfig, ServerConfig, empty_config,
  empty_server, Parse, parsed, help, failed, ◌>>=◌, get_arq_protocol_from_str,
}

-- The value of an option: the alternatives of the variant, which are what Boost stores.
pub data OptionValue : Type 0 where
  no_value : OptionValue
  number : ℕ → OptionValue
  text : String → OptionValue

pub record ProgramOption : Type 0 where
  pub name : String
  pub default_value : OptionValue
  pub help_text : String

abbrev pub program_option : String → OptionValue → String → ProgramOption
program_option name default_value help_text = record {
  name = name;
  default_value = default_value;
  help_text = help_text;
}

abbrev pub program_option_data : List ProgramOption
program_option_data =
    program_option "help" no_value "display help message"
    ∷ program_option "logging" (number Logging.logging_level_info) Logging.help_text
    ∷ program_option "server-addr" (text "127.0.0.1") "server IPv4 address"
    ∷ program_option "server-port" (text "65534") "server port"
    ∷ program_option "client-addr" (text "127.0.0.1") "client IPv4 address"
    ∷ program_option "client-port" (text "65535") "client port"
    ∷ program_option "launch-server" no_value "start server thread"
    ∷ program_option "launch-client" no_value "start client thread"
    ∷ program_option "tx-pkt-num" (number 10) "number of packets to transmit"
    ∷ program_option "tx-pkt-interval" (number 10) "ms between transmitted packets"
    ∷ program_option "arq-timeout" (number 50) "ARQ timeout in ms"
    ∷ program_option "arq-protocol" (text (arq_protocol_to_string dummy_sctp)) "ARQ protocol to use"
    ∷ program_option "window-size" (number 100) "window size for GBN and SR ARQ"
    ∷ []

abbrev pub Variables : Type 0
Variables = String → Option OptionValue

abbrev pub contains : Variables → String → Bool
contains vm name = is_some (vm name)

-- `vm[name].as<uint16_t>()` and `vm[name].as<std::string>()`, which throw for another type.
abbrev pub as_number : Option OptionValue → Parse ℕ
as_number (some (number n)) = parsed n
as_number _ = failed

abbrev pub as_text : Option OptionValue → Parse String
as_text (some (text s)) = parsed s
as_text _ = failed

-- An option that has to be there.
abbrev pub required : Option OptionValue → String → Parse String
required none message = help message
required (some v) message = as_text (some v)

-- `setLoggingLevel` throws an exception that the handler of `parseOptions` does not take.
unfoldable pub parse_logging : Variables → Logger → Parse Logger
parse_logging vm logger =
    if contains vm "logging"
    then (as_number (vm "logging") >>= λ level. elim (Logging.set_logging_level level logger) [
      | returns changed ↦ parsed changed
      | _ ↦ failed
    ])
    else parsed logger

-- A number of the server's configuration, if the option is there and the server is to be started.
abbrev pub parse_server_number :
    Option OptionValue
    → (ℕ → ServerConfig → ServerConfig)
    → Option ServerConfig
    → Parse (Option ServerConfig)
parse_server_number none change server = parsed server
parse_server_number (some v) change none = parsed none
parse_server_number (some v) change (some server) =
    as_number (some v) >>= λ n. parsed (some (change n server))

unfoldable pub parse_server : Variables → Parse (Option ServerConfig)
parse_server vm =
    parse_server_number (vm "tx-pkt-num")
      (λ n s. record s { tx_pkts = record s.tx_pkts { num = n } })
      (if contains vm "launch-server" then some empty_server else none)
    >>= parse_server_number (vm "tx-pkt-interval")
        (λ n s. record s { tx_pkts = record s.tx_pkts { ms_interval = n } })
    >>= parse_server_number (vm "arq-timeout") (λ n s. record s { arq_timeout = n })

abbrev pub parse_protocol : Option OptionValue → ArqProtocol → Parse ArqProtocol
parse_protocol none protocol = parsed protocol
parse_protocol (some v) protocol = as_text (some v) >>= get_arq_protocol_from_str

abbrev pub parse_window_size : Option OptionValue → Option ℕ → Parse (Option ℕ)
parse_window_size none window_size = parsed window_size
parse_window_size (some v) window_size = as_number (some v) >>= λ n. parsed (some n)

-- The configuration and the logger, in the order in which the options are read. `help` is the
-- `HelpException` that the handler takes, which prints the usage and throws again.
unfoldable pub parse_options : Variables → Logger → Parse (LauncherConfig × Logger)
unfolding parse_logging parse_server
parse_options vm logger =
    (if contains vm "help" then help "help requested" else parse_logging vm logger) >>= λ changed.
    required (vm "server-addr") "server-addr not provided" >>= λ server_host.
    required (vm "server-port") "server-port not provided" >>= λ server_service.
    required (vm "client-addr") "client-addr not provided" >>= λ client_host.
    required (vm "client-port") "client-addr not provided" >>= λ client_service.
    parse_server vm >>= λ server.
    parse_protocol (vm "arq-protocol") empty_config.common.arq_protocol >>= λ protocol.
    parse_window_size (vm "window-size") empty_config.common.window_size >>= λ window_size. parsed (
      record {
        common = record {
          server_names = record { host_name = server_host; service_name = server_service };
          client_names = record { host_name = client_host; service_name = client_service };
          arq_protocol = protocol;
          window_size = window_size;
        };
        server = server;
        client = if contains vm "launch-client" then some tt else none;
      },
      changed,
    )
