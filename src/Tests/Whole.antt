-- ===== src/Tests/Whole.antt =====
-- The drive loop (src/zu_whole.c) over the identity decoder.
use zukomp.Base.{◌≡◌, refl, false, some, [], ◌∷◌, arith}
use zukomp.Base.Int.{pos}
use zukomp.Types.{ok, err_output_limit, codec_identity}
use zukomp.Stream.Check.{call}
use zukomp.Stream.Decoder.{decoder_process}
use zukomp.Codec.Identity.{identity_vtable, identity_process}
use zukomp.Whole.Run.{RunOpts, Report, drive}
use zukomp.Whole.Run.Contract.{Proper, Reported}
use zukomp.Whole.Run.Decoding.{Progresses, Below, decoder_drive_ends}
use zukomp.Tests.Memory.{padded, padded-Reallocates, sink, sink-IsValid}
use zukomp.Tests.Streams.{decoder, decoder-IsHonest, decoder_ceiling}

identity-Progresses : {S : Type 0} → Progresses {S = S} identity_process
unfolding identity_process
identity-Progresses = record {
  at = λ s b flush v c. ground (arith, v.src_mem, v.dst_mem, v.src_in, v.dst_in);
}

decoder-Progresses : Progresses (call decoder.vtable.decoder_process)
unfolding identity_vtable
decoder-Progresses = record { at = λ s b flush v c. identity-Progresses.at s b flush v c }

decoder-Below : Below 3 err_output_limit decoder 0
decoder-Below = record {
  honest = decoder-IsHonest;
  progresses = decoder-Progresses;
  ceiling_is = decoder_ceiling;
  total = refl;
  below = omega arith;
}

abbrev three_bytes : RunOpts
three_bytes = record {
  src = 7 ∷ 8 ∷ 9 ∷ [];
  n = 3;
  encode = false;
  codec = codec_identity;
  level = pos 0;
  max_output = 3;
  max_ratio = 2;
  dec_flags = 1;
  expected_size = 0;
  in_chunk = 2;
  out_chunk = 1;
  flush_every = 0;
}

three_bytes-Proper : Proper three_bytes
three_bytes-Proper = record {
  size = refl;
  n_word = omega arith;
  in_some = omega arith;
  out_some = omega arith;
  out_word = omega arith;
}

decoder_drive_ends_example :
    (x : Report) × (drive decoder_process padded three_bytes 13 sink 1 (ok, some decoder) ≡ some x)
    × Reported 3 three_bytes sink x
decoder_drive_ends_example =
    decoder_drive_ends decoder 3 err_output_limit padded three_bytes sink 1 13 decoder-Below
      (omega arith) padded-Reallocates three_bytes-Proper sink-IsValid (omega arith)
