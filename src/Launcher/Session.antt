-- ===== src/Launcher/Session.antt =====
-- src/launcher.cpp: `startTransmitter` and `startReceiver` from their first line to their last, with
-- the calls that the threads of the transmitter or of the receiver make of their functions in
-- between. What is made of the bytes is modelled in `Transmitter`, `Receiver` and `Launcher.Start`.
-- A destructor joins the threads, so the channel is destroyed after their last call.
pub mod Descriptors
use arq_benchmark.Base.{ℕ, List, [], ◌∷◌, Option, String, Outcome, returns, ◌>>=◌}
use arq_benchmark.Common.ConversationId
use arq_benchmark.Util.Os.{Os, Process, Result, value, raised, terminated}
use arq_benchmark.Util.Endpoint
use arq_benchmark.Util.Endpoint.{Endpoint}
use arq_benchmark.Launcher.Config.{ArqProtocol, AddressNames, LauncherConfig}
use arq_benchmark.Launcher.Start.{
  open_transmitter_channel, open_receiver_channel, channel_send, channel_receive,
  receive_conversation_id,
}

-- A call of the function that transmits, or of the one that receives, with the buffer.
pub data Call : Type 0 where
  sends receives : List ℕ → Call

module _ {W : Type 0} (os : Os W) where
  -- The code behind the first line of `shareConversationID` is not reached.
  unfoldable pub share_conversation_id : ℕ → AddressNames → String → Process W → Process W
  share_conversation_id id my_address dest_host p = p

  -- An exception that leaves a thread ends the process.
  pub make_calls :
      ArqProtocol → AddressNames → Endpoint → List Call → Process W → Result (Unit {0}) × Process W
  make_calls protocol destination e [] p = (value tt, p)
  make_calls protocol destination e (sends buffer ∷ calls) p =
      let (sent, q) = channel_send os protocol destination e buffer p in
      elim sent [
        | value n ↦ make_calls protocol destination e calls q
        | raised x ↦ (terminated, q)
        | terminated ↦ (terminated, q)
      ]
  make_calls protocol destination e (receives buffer ∷ calls) p =
      make_calls protocol destination e calls (channel_receive os protocol e buffer p).1

  -- The channel is a local variable of the function.
  abbrev pub left : Endpoint → Result (Unit {0}) × Process W → Result (Unit {0}) × Process W
  left e (value u, p) = (value u, Endpoint.destroy os e p)
  left e (raised x, p) = (raised x, Endpoint.destroy os e p)
  left e (terminated, p) = (terminated, p)

  pub with_channel :
      ArqProtocol
      → AddressNames
      → List Call
      → Result Endpoint × Process W
      → Result (Unit {0}) × Process W
  unfolding make_calls
  with_channel protocol destination calls (value e, p) =
      left e (make_calls protocol destination e calls p)
  with_channel protocol destination calls (raised x, p) = (raised x, p)
  with_channel protocol destination calls (terminated, p) = (terminated, p)

  -- With the ID of the conversation.
  unfoldable pub start_transmitter :
      LauncherConfig → List Call → Process W → Outcome (ℕ × (Result (Unit {0}) × Process W))
  unfolding with_channel share_conversation_id
  start_transmitter config calls p =
      let txer = config.common.server_names in
      let rxer = config.common.client_names in
      ConversationId.get_new_id ConversationId.new >>= λ (id, allocator). returns (
        id,
        with_channel config.common.arq_protocol rxer calls
            (open_transmitter_channel os config (share_conversation_id id txer rxer.host_name p)),
      )

  unfoldable pub start_receiver :
      LauncherConfig → List Call → Process W → ℕ × (Result (Unit {0}) × Process W)
  unfolding with_channel
  start_receiver config calls p = (
    receive_conversation_id,
    with_channel config.common.arq_protocol config.common.server_names calls
        (open_receiver_channel os config p),
  )
