-- ===== src/Keys.antt =====
-- The names of src/nmjsonconst.h, each as the JSON key or value that it stands for.
use nmdaemon.Prelude.{String}

abbrev pub json_param_scope : String
json_param_scope = "SCOPE"

abbrev pub json_param_cmd : String
json_param_cmd = "CMD"

abbrev pub json_param_data : String
json_param_data = "DATA"

abbrev pub json_param_result : String
json_param_result = "RESULT"

abbrev pub json_param_succ : String
json_param_succ = "SUCCESS"

abbrev pub json_param_err : String
json_param_err = "ERROR"

abbrev pub json_param_notfound : String
json_param_notfound = "NOT FOUND"

abbrev pub json_param_busy : String
json_param_busy = "BUSY"

abbrev pub json_param_exists : String
json_param_exists = "EXISTS"

abbrev pub json_data_err_invalid_request : String
json_data_err_invalid_request = "INVALID REQUEST"

abbrev pub json_data_err_not_implemented : String
json_data_err_not_implemented = "NOT IMPLEMENTED"

abbrev pub json_data_err_invalid_command : String
json_data_err_invalid_command = "INVALID COMMAND"

abbrev pub json_data_err_internal_error : String
json_data_err_internal_error = "INTERNAL ERROR"

abbrev pub json_data_err_auth_failed : String
json_data_err_auth_failed = "AUTHENTICATION FAILED"

abbrev pub json_data_err_not_available : String
json_data_err_not_available = "NOT AVAILABLE"

abbrev pub json_data_err_drv_req_failed : String
json_data_err_drv_req_failed = "DRIVER REQUEST FAILED"

abbrev pub json_param_addr_type : String
json_param_addr_type = "ADDRESS TYPE"

abbrev pub json_param_addr_primary : String
json_param_addr_primary = "PRIMARY"

abbrev pub json_param_addr_running : String
json_param_addr_running = "RUNNING"

abbrev pub json_param_ipv4_addr : String
json_param_ipv4_addr = "IPV4 ADDRESS"

abbrev pub json_param_ipv6_addr : String
json_param_ipv6_addr = "IPV6 ADDRESS"

abbrev pub json_param_link_addr : String
json_param_link_addr = "LINK ADDRESS"

abbrev pub json_param_ipv4_mask : String
json_param_ipv4_mask = "IPV4 SUBNET MASK"

abbrev pub json_param_ipv6_mask : String
json_param_ipv6_mask = "IPV6 SUBNET MASK"

abbrev pub json_param_ipv4_bcast : String
json_param_ipv4_bcast = "IPV4 BROADCAST ADDRESS"

abbrev pub json_param_ipv6_bcast : String
json_param_ipv6_bcast = "IPV6 BROADCAST ADDRESS"

abbrev pub json_param_ipv4_gw : String
json_param_ipv4_gw = "IPV4 GATEWAY"

abbrev pub json_param_ipv6_gw : String
json_param_ipv6_gw = "IPV6 GATEWAY"

abbrev pub json_param_if_name : String
json_param_if_name = "INTERFACE NAME"

abbrev pub json_param_rt_name : String
json_param_rt_name = "ROUTE NAME"

abbrev pub json_param_mtu : String
json_param_mtu = "MTU"

abbrev pub json_param_dhcp_enabled : String
json_param_dhcp_enabled = "DHCP_ENABLED"

abbrev pub json_param_addresses : String
json_param_addresses = "ADDRESSES"

abbrev pub json_param_interfaces : String
json_param_interfaces = "INTERFACES"

abbrev pub json_param_routes : String
json_param_routes = "ROUTES"

abbrev pub json_param_network : String
json_param_network = "NETWORK"

abbrev pub json_param_networks : String
json_param_networks = "NETWORKS"

abbrev pub json_param_ssid : String
json_param_ssid = "SSID"

abbrev pub json_param_bssid : String
json_param_bssid = "BSSID"

abbrev pub json_param_meshid : String
json_param_meshid = "MESHID"

abbrev pub json_param_channel : String
json_param_channel = "CHANNEL"

abbrev pub json_param_max_rate : String
json_param_max_rate = "MAX_RATE"

abbrev pub json_param_signal : String
json_param_signal = "SIGNAL"

abbrev pub json_param_noise : String
json_param_noise = "NOISE"

abbrev pub json_param_caps : String
json_param_caps = "CAPS"

abbrev pub json_param_ies : String
json_param_ies = "IES"

abbrev pub json_param_psk : String
json_param_psk = "PSK"

abbrev pub json_param_netid : String
json_param_netid = "NETID"

abbrev pub json_param_status : String
json_param_status = "STATUS"

abbrev pub json_param_media : String
json_param_media = "MEDIA"

abbrev pub json_param_up : String
json_param_up = "UP"

abbrev pub json_param_running : String
json_param_running = "RUNNING"

abbrev pub json_param_net_param_name : String
json_param_net_param_name = "PARAM_NAME"

abbrev pub json_param_net_param_value : String
json_param_net_param_value = "PARAM_VALUE"

abbrev pub json_param_net_param_quotes : String
json_param_net_param_quotes = "PARAM_QUOTES"

abbrev pub json_param_profile : String
json_param_profile = "PROFILE"

abbrev pub json_param_details : String
json_param_details = "DETAILS"

abbrev pub json_data_enabled : String
json_data_enabled = "ENABLED"

abbrev pub json_data_disabled : String
json_data_disabled = "DISABLED"

abbrev pub json_param_flags : String
json_param_flags = "FLAGS"

abbrev pub json_data_rtflag_up : String
json_data_rtflag_up = "UP"

abbrev pub json_data_rtflag_gateway : String
json_data_rtflag_gateway = "GATEWAY"

abbrev pub json_data_rtflag_host : String
json_data_rtflag_host = "HOST"

abbrev pub json_data_rtflag_reject : String
json_data_rtflag_reject = "REJECT"

abbrev pub json_data_rtflag_dynamic : String
json_data_rtflag_dynamic = "DYNAMIC"

abbrev pub json_data_rtflag_modified : String
json_data_rtflag_modified = "MODIFIED"

abbrev pub json_data_rtflag_llinfo : String
json_data_rtflag_llinfo = "LLINFO"

abbrev pub json_data_rtflag_static : String
json_data_rtflag_static = "STATIC"

abbrev pub json_data_rtflag_blackhole : String
json_data_rtflag_blackhole = "BLACKHOLE"

abbrev pub json_data_rtflag_fixedmtu : String
json_data_rtflag_fixedmtu = "FIXEDMTU"

abbrev pub json_data_rtflag_pinned : String
json_data_rtflag_pinned = "PINNED"

abbrev pub json_data_rtflag_local : String
json_data_rtflag_local = "LOCAL"

abbrev pub json_data_rtflag_broadcast : String
json_data_rtflag_broadcast = "BROADCAST"

abbrev pub json_data_rtflag_multicast : String
json_data_rtflag_multicast = "MULTICAST"

abbrev pub json_data_rtflag_sticky : String
json_data_rtflag_sticky = "STICKY"

abbrev pub json_data_wpa_profile_open : String
json_data_wpa_profile_open = "OPEN"

abbrev pub json_data_wpa_profile_wep : String
json_data_wpa_profile_wep = "WEP"

abbrev pub json_data_wpa_profile_wpa_psk : String
json_data_wpa_profile_wpa_psk = "WPA-PSK"

abbrev pub json_data_wpa_profile_wpa2_psk : String
json_data_wpa_profile_wpa2_psk = "WPA2-PSK"

abbrev pub json_data_dhcp_status : String
json_data_dhcp_status = "DHCP STATUS"

abbrev pub json_param_id : String
json_param_id = "ID"

abbrev pub json_param_name : String
json_param_name = "NAME"

abbrev pub json_param_hostname : String
json_param_hostname = "HOSTNAME"

abbrev pub json_param_path : String
json_param_path = "PATH"

abbrev pub json_param_jails : String
json_param_jails = "JAILS"

abbrev pub json_param_jail : String
json_param_jail = "JAIL"

abbrev pub json_param_nameservers : String
json_param_nameservers = "NAMESERVERS"

abbrev pub json_param_search_domains : String
json_param_search_domains = "SEARCH DOMAINS"

abbrev pub json_param_host_domain : String
json_param_host_domain = "DOMAIN"
