-- ===== src/Dhcpd/RunTests.antt =====
-- Stores, requests of the ARP table and reads on which the theorems of this folder are applied.
use netbootd.Prelude.{inl, true, ◌<◌, length, arith, ◌≡◌, ◌↔◌, refl, List, [], bytes}
use netbootd.GoStd.Ip.{to4}
use netbootd.Store.Defs.{put_manifest}
use netbootd.Dhcpd.Arp.Layout.{inject_arp_fd_panics_iff}
use netbootd.Dhcpd.Arp.{panicked, linux_64, inject_arp_fd}
use netbootd.Dhcpd.Packet.{DhcpOption, is_writable}
use netbootd.Dhcpd.Defs.{Sent, sent, handle_msg4}
use netbootd.Dhcpd.Stored.{handle_msg4-put_manifest}
use netbootd.Dhcpd.Sample.{
  client, machine, store, discover, fresh, lib, server_ip, host, located, ours, typed,
}

writable : is_writable machine.ipv4.ip ≡ true
unfolding is_writable to4
writable = refl

handle_msg4-put_manifest_example :
    (x : Sent (List DhcpOption)) × ((handle_msg4 lib host (put_manifest store machine).1 []
        ≡ sent x)
      × (x.reply.your_ip_addr ≡ machine.ipv4.ip))
handle_msg4-put_manifest_example =
    handle_msg4-put_manifest lib host store machine [] discover fresh 2 server_ip (cc, cc) writable
      (inl refl) (omega arith) (omega arith) refl refl refl typed located ours

inject_arp_fd_panics_iff_example :
    (inject_arp_fd linux_64 host.ioctl server_ip client 2 (bytes "eth0") ≡ panicked)
    ↔ (14 < length client)
inject_arp_fd_panics_iff_example =
    inject_arp_fd_panics_iff host.ioctl server_ip client 2 (bytes "eth0") (omega arith)
