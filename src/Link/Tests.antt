-- ===== src/Link/Tests.antt =====
-- Two channels: one message is sent, written and read.
use deepspace_outpost_dx.Base.{get_elem?, take, lookup, ◌-◌, ◌≡◌, refl, some, [], ◌∷◌, ◌++◌, arith}
use deepspace_outpost_dx.Wire.{write_u16, write_u32, write_bytes, read_u32, read_bytes, ok}
use deepspace_outpost_dx.Channel.{
  ReliableMessage, emplace, send, local_ack, choose, write_entries, write_packet, flush, accept,
  read_entry, read_entries, read_body, read_packet,
}
use deepspace_outpost_dx.Link.{
  Peer, fresh, do_send, do_write, do_read, sends, writes, reads, other, Reach, start, next,
}
use deepspace_outpost_dx.Link.Safety.{received_in_order, undelivered_kept}

abbrev hello : ReliableMessage
hello = record { type = 3; payload = 72 ∷ 105 ∷ [] }

abbrev sender : Peer
sender = do_write 1200 (do_send hello fresh)

abbrev receiver : Peer
receiver = do_read (write_packet 1200 (do_send hello fresh).chan) fresh

written : Reach (sender, fresh)
written =
    next (next start (sends fresh fresh hello (omega arith) (omega arith) (omega arith)))
      (writes (do_send hello fresh) fresh 1200 (omega arith))

first_datagram : get_elem? sender.wire 0 ≡ some (write_packet 1200 (do_send hello fresh).chan)
unfolding do_write do_send
first_datagram = refl

delivered : Reach (sender, receiver)
delivered =
    next written
      (other (reads fresh sender 0 (write_packet 1200 (do_send hello fresh).chan) first_datagram))

received_in_order_example :
    receiver.got ++ receiver.chan.ready ≡ take (receiver.chan.next_expected - 1) sender.sent
received_in_order_example = received_in_order sender receiver delivered

undelivered_kept_example : lookup 1 sender.chan.unacked ≡ get_elem? sender.sent 0
unfolding do_write do_send
undelivered_kept_example = undelivered_kept sender fresh 1 written (omega arith) (omega arith)

receiver_ready : receiver.chan.ready ≡ hello ∷ []
unfolding do_read do_send read_packet read_body read_entries read_entry write_packet write_entries
    choose send emplace accept flush local_ack read_u32 write_bytes write_u16 write_u32 ok
    read_bytes
receiver_ready = refl
