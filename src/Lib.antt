-- ===== src/Lib.antt =====
-- nmdaemon is a FreeBSD daemon that reads JSON requests from a unix socket and answers with the
-- state of the network, or changes it. This library models its core and proves what that core
-- promises.
--
-- A connection has two threads (src/nmdaemon.cpp). The receiver reads a block, parses it into a
-- request (src/nmcommanddata.cpp) and queues it if one of the workers accepts it. The dispatcher
-- takes requests from the queue, has the worker of the request's scope execute it and writes the
-- answer. The workers change the system: the route worker (src/nmworkerroute.cpp) makes a group of
-- addresses from the request (src/tool.cpp, src/addressgroup.cpp, src/addressip4.cpp,
-- src/addressip6.cpp, src/addresslink.cpp) and writes a message to the routing socket. The list of
-- interfaces is made of groups (src/interface.cpp). resolv.conf is read and written by
-- src/resolvconf.cpp, and the network part of rc.conf by src/rcconf.cpp. The WPA worker
-- (src/nmworkerwpa.cpp) sends texts to wpa_supplicant over a unix socket and waits for its replies,
-- and the interface worker (src/nmworkerif.cpp) sets addresses, the MTU and the DHCP client of an
-- interface.
--
-- Files and what they model, in the source's names:
--   Prelude        shared names, Boolean tests, lists, and Result: a call returns (ok), throws
--                  (throw), or uses a null pointer or runs into undefined behaviour (fault)
--   Bits           laws of & and ^ on native numbers
--   Text           std::string as its bytes; find, getline, the trims and splitString
--   Keys           the names of src/nmjsonconst.h
--   Json           nlohmann::json as an interface with the laws that the code relies on
--   Platform       sockaddrs, interface flags, inet_pton and its relatives, as an interface
--   Address        AddressBase and its three classes; a shared pointer that may be null is an Option
--   Group          AddressGroup: constructors, getAddrString, getAddrJson, isValidIp, getFlagsRoute
--   Tool           isValidGw4, isValidBcast4, getAddrFromJson, the name checks, hideSecrets,
--                  rotateConfigFile, isDHCPEnabled, termDHCPClient
--   ResolvConf     getConfig and setConfig
--   Ini            the ini file of src/inifile as an interface with the laws that the code relies on
--   RcConf         rc.conf: Scan decodes values, Write has setRcIpConfig, Read has getRcIpConfig
--   Interface      addAddress, getIfJson, findPrimaryAndJailAddress
--   Command        NmScope, NmCmd, NmCommandData; Workers has the tables and switches of the workers
--   Daemon         the steps of the two threads, which interleave between their critical sections
--   Route          setStaticRoute, delStaticRoute and their commands, for any kernel; Get has
--                  getStaticRoute and the commands that read and delete the default route
--   Sys            execCmdIfEnable, execCmdIfDisable; IfList has execCmdIfList, RcFile the commands
--                  of rc.conf, ResolvFile those of resolv.conf
--   Fields         the fields of the DATA section of a request
--   Exec           calls that change a state and return, throw or fault; Exec/Keeps what they keep
--   Wpa            NmWorkerWpa and WpaSocket (src/nmworkerwpa.cpp, src/wpasocket.cpp): Control the
--                  forms of wpaCtrlCmd, Buffer the reading of a reply, Networks, Add, Connect, Select,
--                  Scan and Commands the requests, Execute the switch of execCmd
--   IfWorker       NmWorkerIf (src/nmworkerif.cpp): Addresses the addresses and the MTU, Client the
--                  DHCP client, Execute the switch of execCmd
--   Tests          a JSON value type, a system that knows a few addresses, and the properties at
--                  concrete inputs
--
-- Numbers are the native natural numbers, addresses and masks words below 2 ^ 32 in network byte
-- order. The loop of setStaticRoute runs on fuel 2, which is enough because the second try is no
-- addition. The loop over a list of aliases in rc.conf runs on the length of the text, which each
-- round shortens, and that of getJails on a bound of the number of jails. The waits for
-- wpa_supplicant run on the counts of the code, a scan on its four tries, and the wait for a medium
-- on the 100 retries of the code. The other loops go down their lists. rotateConfigFile is modelled
-- for at most 32767 backups, which its loop variable of type short holds. The names of the
-- active routes, a std::set in getRcIpConfig, are a list in the order of the text, which only a
-- membership test reads.
--
-- Not modelled: src/json, src/magic_enum, src/loguru and src/inifile are copies of other projects;
-- the calls of the system (ioctl, sysctl, kvm, the jail library, sockets) are its own, and what
-- wpa_supplicant answers is whatever comes from a socket; the handlers of the WiFi worker, WPA_LIST
-- with its supplementary parameters, the list of routes and the start of the process are outside this
-- version. Logging has no effect on the model, but for the reports that read through a pointer: that
-- of addAddress(struct ifaddrs*), and those of a message of wpa_supplicant without a NUL.
pub mod Prelude
pub mod Bits
pub mod Text
pub mod Keys
pub mod Json
pub mod Platform
pub mod Address
pub mod Group
pub mod Tool
pub mod ResolvConf
pub mod Ini
pub mod RcConf
pub mod Interface
pub mod Command
pub mod Daemon
pub mod Route
pub mod Sys
pub mod Fields
pub mod Exec
pub mod Jails
pub mod Wpa
pub mod IfWorker
pub mod Tests
