-- ===== src/Launcher/Config.antt =====
-- src/config.hpp, and the names of the protocols in src/launcher.cpp.
use arq_benchmark.Base.{
  ℕ, ◌≡◌, ◌↔◌, refl, Bool, false, Option, none, String, str_eq, str_eq_iff, if◌then◌else◌, arith,
}

-- A host and a service, by name or number.
pub record AddressNames : Type 0 where
  pub host_name : String
  pub service_name : String

pub data ArqProtocol : Type 0 where
  dummy_sctp stop_and_wait go_back_n selective_repeat : ArqProtocol

abbrev pub arq_protocol_to_string : ArqProtocol → String
arq_protocol_to_string dummy_sctp = "dummy-sctp"
arq_protocol_to_string stop_and_wait = "stop-and-wait"
arq_protocol_to_string go_back_n = "go-back-n"
arq_protocol_to_string selective_repeat = "selective-repeat"

pub record CommonConfig : Type 0 where
  pub server_names : AddressNames
  pub client_names : AddressNames
  pub arq_protocol : ArqProtocol
  pub window_size : Option ℕ

pub record TxPkts : Type 0 where
  pub num : ℕ
  pub ms_interval : ℕ

pub record ServerConfig : Type 0 where
  pub do_not_verify_client_addr : Bool
  pub tx_pkts : TxPkts
  pub arq_timeout : ℕ

-- `config_Client` has no members.
pub record LauncherConfig : Type 0 where
  pub common : CommonConfig
  pub server : Option ServerConfig
  pub client : Option (Unit {0})

-- `config_Server{}`
abbrev pub empty_server : ServerConfig
empty_server = record {
  do_not_verify_client_addr = false;
  tx_pkts = record { num = 0; ms_interval = 0 };
  arq_timeout = 0;
}

-- `config_Launcher{}`; the protocol is the one whose value is 0.
abbrev pub empty_config : LauncherConfig
empty_config = record {
  common = record {
    server_names = record { host_name = ""; service_name = "" };
    client_names = record { host_name = ""; service_name = "" };
    arq_protocol = dummy_sctp;
    window_size = none;
  };
  server = none;
  client = none;
}

-- What a part of the parser gives: a value, a `HelpException`, or another exception.
pub data Parse {ℓ} (A : Type ℓ) : Type ℓ where
  parsed : A → Parse A
  help : String → Parse A
  failed : Parse A

infixl 5 ◌>>=◌
abbrev pub ◌>>=◌ {ℓ κ} : {A : Type ℓ} {B : Type κ} → Parse A → (A → Parse B) → Parse B
parsed a >>= f = f a
help message >>= f = help message
failed >>= f = failed

unfoldable pub get_arq_protocol_from_str : String → Parse ArqProtocol
get_arq_protocol_from_str input =
    if str_eq input (arq_protocol_to_string dummy_sctp)
    then parsed dummy_sctp
    else if str_eq input (arq_protocol_to_string stop_and_wait)
    then parsed stop_and_wait
    else if str_eq input (arq_protocol_to_string go_back_n)
    then parsed go_back_n
    else if str_eq input (arq_protocol_to_string selective_repeat)
    then parsed selective_repeat
    else help "invalid ARQ protocol provided"

-- The protocol that a text gives is the one whose name the text is: a name gives its protocol, and a
-- text that gives one is its name.
pub get_arq_protocol_from_str-arq_protocol_to_string :
    (input : String) (protocol : ArqProtocol)
    → (get_arq_protocol_from_str input ≡ parsed protocol)
      ↔ (input ≡ arq_protocol_to_string protocol)
unfolding get_arq_protocol_from_str
get_arq_protocol_from_str-arq_protocol_to_string input protocol = (from, to)
  where
    from :
        get_arq_protocol_from_str input ≡ parsed protocol → input ≡ arq_protocol_to_string protocol
    from e = ground (
      arith,
      str_eq_iff input (arq_protocol_to_string dummy_sctp),
      str_eq_iff input (arq_protocol_to_string stop_and_wait),
      str_eq_iff input (arq_protocol_to_string go_back_n),
      str_eq_iff input (arq_protocol_to_string selective_repeat),
    )

    to : input ≡ arq_protocol_to_string protocol → get_arq_protocol_from_str input ≡ parsed protocol
    to e = rw e (by_name protocol)
      where
        by_name :
            (p : ArqProtocol) → get_arq_protocol_from_str (arq_protocol_to_string p) ≡ parsed p
        by_name dummy_sctp = refl
        by_name stop_and_wait = refl
        by_name go_back_n = refl
        by_name selective_repeat = refl
