-- ===== src/Broadcast.antt =====
-- crates/broadcast: the messages that the components send to each other and to the interface.
-- The channels are not modelled: a component's state holds what it has sent, newest last.
use ethui.Common.{String, Option, List}
use ethui.Types.{NetworkId, Affinity, Address, Network, NewNetworkParams}

-- `UINotify`, the notices that the modelled components send.
pub data Notice : Type 0 where
  wallets_changed networks_changed current_network_changed : Notice
  peers_updated balances_updated settings_changed : Notice
  txs_updated contracts_updated wc_sessions_updated : Notice

-- `InternalMsg`, and `UIMsg::Notify` as `ui_notify`.
pub data Message : Type 0 where
  chain_changed : NetworkId → Option String → Affinity → Message
  accounts_changed : List Address → Message
  settings_updated : Message
  address_added address_removed current_address_changed : Address → Message
  network_added network_updated network_removed network_selected : Network → Message
  wallet_created peer_added contract_found : Message
  wallet_connected : String → Message
  stack_add : NewNetworkParams → Message
  stack_remove : String → Message
  ui_notify : Notice → Message
