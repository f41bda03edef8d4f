-- ===== src/Network.antt =====
-- Where a request comes from: the forwarding headers of backend/app/security/auth.py, from the
-- address of the peer to `request_network_context`. A `ValueError` is `none`. Header names are in
-- lower case, as Starlette looks them up. The messages of the errors are left out.
pub mod Address
pub mod Headers
pub mod Context
pub mod Proxies
pub use machine_deck.Network.Address.{
  Addresses, IpNetwork, NetworkSettings, Request, RequestNetworkContext,
}
unfoldable pub use machine_deck.Network.Address.{
  in_network, in_networks, port_suffix, bracketed, with_port, unbracketed, literal, address,
}
pub use machine_deck.Network.Headers.{Chain, forbidden_in_host, Parameters}
unfoldable pub use machine_deck.Network.Headers.{
  valid_forwarded_host, parameter, add_parameter, parse_parameters, parse_element, traverse,
  chain_length_valid, protocol_valid, forwarded_proto, forwarded_host, chain_of, forwarded_chain,
  x_proto, x_host, x_forwarded_chain,
}
unfoldable pub use machine_deck.Network.Context.{
  first_untrusted, client_of, has_x_headers, selected_chain, forwarded_context, has_forwarding,
  peer_context, request_network_context, client_is_trusted_network,
}
