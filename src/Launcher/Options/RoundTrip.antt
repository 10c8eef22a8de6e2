-- ===== src/Launcher/Options/RoundTrip.antt =====
-- The options of a configuration that a user asks for, against `parseOptions`.
use arq_benchmark.Base.{
  ℕ, ◌≡◌, ◌<◌, refl, Bool, true, false, List, [], ◌∷◌, none, some, String, str_eq, if◌then◌else◌,
  length, leb, lt→not_leb,
}
use arq_benchmark.Util.Logging
use arq_benchmark.Util.Logging.{Logger, labels}
use arq_benchmark.Launcher.Config.{
  ArqProtocol, arq_protocol_to_string, AddressNames, LauncherConfig, parsed, ◌>>=◌,
  get_arq_protocol_from_str, get_arq_protocol_from_str-arq_protocol_to_string,
}
use arq_benchmark.Launcher.Options.{
  OptionValue, no_value, number, text, Variables, parse_options, parse_server, parse_logging,
}

-- What a user asks for.
pub record Request : Type 0 where
  pub logging_level : ℕ
  pub server_names : AddressNames
  pub client_names : AddressNames
  pub launch_server : Bool
  pub launch_client : Bool
  pub num : ℕ
  pub ms_interval : ℕ
  pub arq_timeout : ℕ
  pub arq_protocol : ArqProtocol
  pub window_size : ℕ

abbrev pub flag : Bool → String → List (String × OptionValue) → List (String × OptionValue)
flag true name options = (name, no_value) ∷ options
flag false name options = options

-- The options that say so, as Boost stores them.
abbrev pub options_of : Request → List (String × OptionValue)
options_of r =
    ("logging", number r.logging_level)
    ∷ ("server-addr", text r.server_names.host_name)
    ∷ ("server-port", text r.server_names.service_name)
    ∷ ("client-addr", text r.client_names.host_name)
    ∷ ("client-port", text r.client_names.service_name)
    ∷ ("tx-pkt-num", number r.num)
    ∷ ("tx-pkt-interval", number r.ms_interval)
    ∷ ("arq-timeout", number r.arq_timeout)
    ∷ ("arq-protocol", text (arq_protocol_to_string r.arq_protocol))
    ∷ ("window-size", number r.window_size)
    ∷ flag r.launch_server "launch-server" (flag r.launch_client "launch-client" [])

abbrev pub lookup : List (String × OptionValue) → Variables
lookup [] name = none
lookup ((key, v) ∷ options) name = if str_eq key name then some v else lookup options name

-- The configuration that is asked for.
abbrev pub config_of : Request → LauncherConfig
config_of r = record {
  common = record {
    server_names = r.server_names;
    client_names = r.client_names;
    arq_protocol = r.arq_protocol;
    window_size = some r.window_size;
  };
  server =
      if r.launch_server
      then some (record {
        do_not_verify_client_addr = false;
        tx_pkts = record { num = r.num; ms_interval = r.ms_interval };
        arq_timeout = r.arq_timeout;
      })
      else none;
  client = if r.launch_client then some tt else none;
}

-- The options for a request with a logging level that has a label are parsed to the configuration that
-- is asked for, and set that level.
pub parse_options-options_of :
    (r : Request) (logger : Logger)
    → r.logging_level < length labels
    → parse_options (lookup (options_of r)) logger
      ≡ parsed (config_of r, record logger { logging_level = r.logging_level })
unfolding parse_options parse_server parse_logging Logging.set_logging_level
parse_options-options_of r logger h = at r.launch_server r.launch_client r.arq_protocol
  where
    low : leb (length labels) r.logging_level ≡ false
    low = lt→not_leb (length labels) r.logging_level h

    named : (p : ArqProtocol) → get_arq_protocol_from_str (arq_protocol_to_string p) ≡ parsed p
    named p = (get_arq_protocol_from_str-arq_protocol_to_string (arq_protocol_to_string p) p).1 refl

    with : Bool → Bool → ArqProtocol → Request
    with server client protocol = record r {
      launch_server = server;
      launch_client = client;
      arq_protocol = protocol;
    }

    Statement : Request → Type 0
    Statement q =
        parse_options (lookup (options_of q)) logger
        ≡ parsed (config_of q, record logger { logging_level = q.logging_level })

    at : (server client : Bool) (protocol : ArqProtocol) → Statement (with server client protocol)
    at true true protocol = rw (low, named protocol, ◌>>=◌)
    at true false protocol = rw (low, named protocol, ◌>>=◌)
    at false true protocol = rw (low, named protocol, ◌>>=◌)
    at false false protocol = rw (low, named protocol, ◌>>=◌)
