-- ===== src/Storage/Crc64/Tables/Rows67.antt =====
-- The rows 6 and 7 of the table `Crc64MU32` of crypt.cpp, with 256 entries each.
use azure_sdk_for_cpp.Base.{ℕ, List, [], ◌∷◌}

-- The entries from 6 * 256.
unfoldable pub mu32_row6 : List ℕ
mu32_row6 =
    0x0000000000000000 ∷ 0x0aed36d1a3bb9d7f ∷ 0x15da6da347773afe ∷ 0x1f375b72e4cca781
    ∷ 0x2bb4db468eee75fc ∷ 0x2159ed972d55e883 ∷ 0x3e6eb6e5c9994f02 ∷ 0x348380346a22d27d
    ∷ 0x5769b68d1ddcebf8 ∷ 0x5d84805cbe677687 ∷ 0x42b3db2e5aabd106 ∷ 0x485eedfff9104c79
    ∷ 0x7cdd6dcb93329e04 ∷ 0x76305b1a3089037b ∷ 0x69070068d445a4fa ∷ 0x63ea36b977fe3985
    ∷ 0xaed36d1a3bb9d7f0 ∷ 0xa43e5bcb98024a8f ∷ 0xbb0900b97cceed0e ∷ 0xb1e43668df757071
    ∷ 0x8567b65cb557a20c ∷ 0x8f8a808d16ec3f73 ∷ 0x90bddbfff22098f2 ∷ 0x9a50ed2e519b058d
    ∷ 0xf9badb9726653c08 ∷ 0xf357ed4685dea177 ∷ 0xec60b634611206f6 ∷ 0xe68d80e5c2a99b89
    ∷ 0xd20e00d1a88b49f4 ∷ 0xd8e336000b30d48b ∷ 0xc7d46d72effc730a ∷ 0xcd395ba34c47ee75
    ∷ 0x697ffc672fe43c8b ∷ 0x6392cab68c5fa1f4 ∷ 0x7ca591c468930675 ∷ 0x7648a715cb289b0a
    ∷ 0x42cb2721a10a4977 ∷ 0x482611f002b1d408 ∷ 0x57114a82e67d7389 ∷ 0x5dfc7c5345c6eef6
    ∷ 0x3e164aea3238d773 ∷ 0x34fb7c3b91834a0c ∷ 0x2bcc2749754fed8d ∷ 0x21211198d6f470f2
    ∷ 0x15a291acbcd6a28f ∷ 0x1f4fa77d1f6d3ff0 ∷ 0x0078fc0ffba19871 ∷ 0x0a95cade581a050e
    ∷ 0xc7ac917d145deb7b ∷ 0xcd41a7acb7e67604 ∷ 0xd276fcde532ad185 ∷ 0xd89bca0ff0914cfa
    ∷ 0xec184a3b9ab39e87 ∷ 0xe6f57cea390803f8 ∷ 0xf9c22798ddc4a479 ∷ 0xf32f11497e7f3906
    ∷ 0x90c527f009810083 ∷ 0x9a281121aa3a9dfc ∷ 0x851f4a534ef63a7d ∷ 0x8ff27c82ed4da702
    ∷ 0xbb71fcb6876f757f ∷ 0xb19cca6724d4e800 ∷ 0xaeab9115c0184f81 ∷ 0xa446a7c463a3d2fe
    ∷ 0xd2fff8ce5fc87916 ∷ 0xd812ce1ffc73e469 ∷ 0xc725956d18bf43e8 ∷ 0xcdc8a3bcbb04de97
    ∷ 0xf94b2388d1260cea ∷ 0xf3a61559729d9195 ∷ 0xec914e2b96513614 ∷ 0xe67c78fa35eaab6b
    ∷ 0x85964e43421492ee ∷ 0x8f7b7892e1af0f91 ∷ 0x904c23e00563a810 ∷ 0x9aa11531a6d8356f
    ∷ 0xae229505ccfae712 ∷ 0xa4cfa3d46f417a6d ∷ 0xbbf8f8a68b8dddec ∷ 0xb115ce7728364093
    ∷ 0x7c2c95d46471aee6 ∷ 0x76c1a305c7ca3399 ∷ 0x69f6f87723069418 ∷ 0x631bcea680bd0967
    ∷ 0x57984e92ea9fdb1a ∷ 0x5d75784349244665 ∷ 0x42422331ade8e1e4 ∷ 0x48af15e00e537c9b
    ∷ 0x2b45235979ad451e ∷ 0x21a81588da16d861 ∷ 0x3e9f4efa3eda7fe0 ∷ 0x3472782b9d61e29f
    ∷ 0x00f1f81ff74330e2 ∷ 0x0a1ccece54f8ad9d ∷ 0x152b95bcb0340a1c ∷ 0x1fc6a36d138f9763
    ∷ 0xbb8004a9702c459d ∷ 0xb16d3278d397d8e2 ∷ 0xae5a690a375b7f63 ∷ 0xa4b75fdb94e0e21c
    ∷ 0x9034dfeffec23061 ∷ 0x9ad9e93e5d79ad1e ∷ 0x85eeb24cb9b50a9f ∷ 0x8f03849d1a0e97e0
    ∷ 0xece9b2246df0ae65 ∷ 0xe60484f5ce4b331a ∷ 0xf933df872a87949b ∷ 0xf3dee956893c09e4
    ∷ 0xc75d6962e31edb99 ∷ 0xcdb05fb340a546e6 ∷ 0xd28704c1a469e167 ∷ 0xd86a321007d27c18
    ∷ 0x155369b34b95926d ∷ 0x1fbe5f62e82e0f12 ∷ 0x008904100ce2a893 ∷ 0x0a6432c1af5935ec
    ∷ 0x3ee7b2f5c57be791 ∷ 0x340a842466c07aee ∷ 0x2b3ddf56820cdd6f ∷ 0x21d0e98721b74010
    ∷ 0x423adf3e56497995 ∷ 0x48d7e9eff5f2e4ea ∷ 0x57e0b29d113e436b ∷ 0x5d0d844cb285de14
    ∷ 0x698e0478d8a70c69 ∷ 0x636332a97b1c9116 ∷ 0x7c5469db9fd03697 ∷ 0x76b95f0a3c6babe8
    ∷ 0x9126d7cfe7076147 ∷ 0x9bcbe11e44bcfc38 ∷ 0x84fcba6ca0705bb9 ∷ 0x8e118cbd03cbc6c6
    ∷ 0xba920c8969e914bb ∷ 0xb07f3a58ca5289c4 ∷ 0xaf48612a2e9e2e45 ∷ 0xa5a557fb8d25b33a
    ∷ 0xc64f6142fadb8abf ∷ 0xcca25793596017c0 ∷ 0xd3950ce1bdacb041 ∷ 0xd9783a301e172d3e
    ∷ 0xedfbba047435ff43 ∷ 0xe7168cd5d78e623c ∷ 0xf821d7a73342c5bd ∷ 0xf2cce17690f958c2
    ∷ 0x3ff5bad5dcbeb6b7 ∷ 0x35188c047f052bc8 ∷ 0x2a2fd7769bc98c49 ∷ 0x20c2e1a738721136
    ∷ 0x144161935250c34b ∷ 0x1eac5742f1eb5e34 ∷ 0x019b0c301527f9b5 ∷ 0x0b763ae1b69c64ca
    ∷ 0x689c0c58c1625d4f ∷ 0x62713a8962d9c030 ∷ 0x7d4661fb861567b1 ∷ 0x77ab572a25aeface
    ∷ 0x4328d71e4f8c28b3 ∷ 0x49c5e1cfec37b5cc ∷ 0x56f2babd08fb124d ∷ 0x5c1f8c6cab408f32
    ∷ 0xf8592ba8c8e35dcc ∷ 0xf2b41d796b58c0b3 ∷ 0xed83460b8f946732 ∷ 0xe76e70da2c2ffa4d
    ∷ 0xd3edf0ee460d2830 ∷ 0xd900c63fe5b6b54f ∷ 0xc6379d4d017a12ce ∷ 0xccdaab9ca2c18fb1
    ∷ 0xaf309d25d53fb634 ∷ 0xa5ddabf476842b4b ∷ 0xbaeaf08692488cca ∷ 0xb007c65731f311b5
    ∷ 0x848446635bd1c3c8 ∷ 0x8e6970b2f86a5eb7 ∷ 0x915e2bc01ca6f936 ∷ 0x9bb31d11bf1d6449
    ∷ 0x568a46b2f35a8a3c ∷ 0x5c67706350e11743 ∷ 0x43502b11b42db0c2 ∷ 0x49bd1dc017962dbd
    ∷ 0x7d3e9df47db4ffc0 ∷ 0x77d3ab25de0f62bf ∷ 0x68e4f0573ac3c53e ∷ 0x6209c68699785841
    ∷ 0x01e3f03fee8661c4 ∷ 0x0b0ec6ee4d3dfcbb ∷ 0x14399d9ca9f15b3a ∷ 0x1ed4ab4d0a4ac645
    ∷ 0x2a572b7960681438 ∷ 0x20ba1da8c3d38947 ∷ 0x3f8d46da271f2ec6 ∷ 0x3560700b84a4b3b9
    ∷ 0x43d92f01b8cf1851 ∷ 0x493419d01b74852e ∷ 0x560342a2ffb822af ∷ 0x5cee74735c03bfd0
    ∷ 0x686df44736216dad ∷ 0x6280c296959af0d2 ∷ 0x7db799e471565753 ∷ 0x775aaf35d2edca2c
    ∷ 0x14b0998ca513f3a9 ∷ 0x1e5daf5d06a86ed6 ∷ 0x016af42fe264c957 ∷ 0x0b87c2fe41df5428
    ∷ 0x3f0442ca2bfd8655 ∷ 0x35e9741b88461b2a ∷ 0x2ade2f696c8abcab ∷ 0x203319b8cf3121d4
    ∷ 0xed0a421b8376cfa1 ∷ 0xe7e774ca20cd52de ∷ 0xf8d02fb8c401f55f ∷ 0xf23d196967ba6820
    ∷ 0xc6be995d0d98ba5d ∷ 0xcc53af8cae232722 ∷ 0xd364f4fe4aef80a3 ∷ 0xd989c22fe9541ddc
    ∷ 0xba63f4969eaa2459 ∷ 0xb08ec2473d11b926 ∷ 0xafb99935d9dd1ea7 ∷ 0xa554afe47a6683d8
    ∷ 0x91d72fd0104451a5 ∷ 0x9b3a1901b3ffccda ∷ 0x840d427357336b5b ∷ 0x8ee074a2f488f624
    ∷ 0x2aa6d366972b24da ∷ 0x204be5b73490b9a5 ∷ 0x3f7cbec5d05c1e24 ∷ 0x3591881473e7835b
    ∷ 0x0112082019c55126 ∷ 0x0bff3ef1ba7ecc59 ∷ 0x14c865835eb26bd8 ∷ 0x1e255352fd09f6a7
    ∷ 0x7dcf65eb8af7cf22 ∷ 0x7722533a294c525d ∷ 0x68150848cd80f5dc ∷ 0x62f83e996e3b68a3
    ∷ 0x567bbead0419bade ∷ 0x5c96887ca7a227a1 ∷ 0x43a1d30e436e8020 ∷ 0x494ce5dfe0d51d5f
    ∷ 0x8475be7cac92f32a ∷ 0x8e9888ad0f296e55 ∷ 0x91afd3dfebe5c9d4 ∷ 0x9b42e50e485e54ab
    ∷ 0xafc1653a227c86d6 ∷ 0xa52c53eb81c71ba9 ∷ 0xba1b0899650bbc28 ∷ 0xb0f63e48c6b02157
    ∷ 0xd31c08f1b14e18d2 ∷ 0xd9f13e2012f585ad ∷ 0xc6c66552f639222c ∷ 0xcc2b53835582bf53
    ∷ 0xf8a8d3b73fa06d2e ∷ 0xf245e5669c1bf051 ∷ 0xed72be1478d757d0 ∷ 0xe79f88c5db6ccaaf ∷ []

-- The entries from 7 * 256.
unfoldable pub mu32_row7 : List ℕ
mu32_row7 =
    0x0000000000000000 ∷ 0xb0bc2e589204f500 ∷ 0x55a17ae27c9e796b ∷ 0xe51d54baee9a8c6b
    ∷ 0xab42f5c4f93cf2d6 ∷ 0x1bfedb9c6b3807d6 ∷ 0xfee38f2685a28bbd ∷ 0x4e5fa17e17a67ebd
    ∷ 0x625ccddaaaee76c7 ∷ 0xd2e0e38238ea83c7 ∷ 0x37fdb738d6700fac ∷ 0x874199604474faac
    ∷ 0xc91e381e53d28411 ∷ 0x79a21646c1d67111 ∷ 0x9cbf42fc2f4cfd7a ∷ 0x2c036ca4bd48087a
    ∷ 0xc4b99bb555dced8e ∷ 0x7405b5edc7d8188e ∷ 0x9118e157294294e5 ∷ 0x21a4cf0fbb4661e5
    ∷ 0x6ffb6e71ace01f58 ∷ 0xdf4740293ee4ea58 ∷ 0x3a5a1493d07e6633 ∷ 0x8ae63acb427a9333
    ∷ 0xa6e5566fff329b49 ∷ 0x165978376d366e49 ∷ 0xf3442c8d83ace222 ∷ 0x43f802d511a81722
    ∷ 0x0da7a3ab060e699f ∷ 0xbd1b8df3940a9c9f ∷ 0x5806d9497a9010f4 ∷ 0xe8baf711e894e5f4
    ∷ 0xbdaa1139f32e4877 ∷ 0x0d163f61612abd77 ∷ 0xe80b6bdb8fb0311c ∷ 0x58b745831db4c41c
    ∷ 0x16e8e4fd0a12baa1 ∷ 0xa654caa598164fa1 ∷ 0x43499e1f768cc3ca ∷ 0xf3f5b047e48836ca
    ∷ 0xdff6dce359c03eb0 ∷ 0x6f4af2bbcbc4cbb0 ∷ 0x8a57a601255e47db ∷ 0x3aeb8859b75ab2db
    ∷ 0x74b42927a0fccc66 ∷ 0xc408077f32f83966 ∷ 0x211553c5dc62b50d ∷ 0x91a97d9d4e66400d
    ∷ 0x79138a8ca6f2a5f9 ∷ 0xc9afa4d434f650f9 ∷ 0x2cb2f06eda6cdc92 ∷ 0x9c0ede3648682992
    ∷ 0xd2517f485fce572f ∷ 0x62ed5110cdcaa22f ∷ 0x87f005aa23502e44 ∷ 0x374c2bf2b154db44
    ∷ 0x1b4f47560c1cd33e ∷ 0xabf3690e9e18263e ∷ 0x4eee3db47082aa55 ∷ 0xfe5213ece2865f55
    ∷ 0xb00db292f52021e8 ∷ 0x00b19cca6724d4e8 ∷ 0xe5acc87089be5883 ∷ 0x5510e6281bbaad83
    ∷ 0x4f8d0420becb0385 ∷ 0xff312a782ccff685 ∷ 0x1a2c7ec2c2557aee ∷ 0xaa90509a50518fee
    ∷ 0xe4cff1e447f7f153 ∷ 0x5473dfbcd5f30453 ∷ 0xb16e8b063b698838 ∷ 0x01d2a55ea96d7d38
    ∷ 0x2dd1c9fa14257542 ∷ 0x9d6de7a286218042 ∷ 0x7870b31868bb0c29 ∷ 0xc8cc9d40fabff929
    ∷ 0x86933c3eed198794 ∷ 0x362f12667f1d7294 ∷ 0xd33246dc9187feff ∷ 0x638e688403830bff
    ∷ 0x8b349f95eb17ee0b ∷ 0x3b88b1cd79131b0b ∷ 0xde95e57797899760 ∷ 0x6e29cb2f058d6260
    ∷ 0x20766a51122b1cdd ∷ 0x90ca4409802fe9dd ∷ 0x75d710b36eb565b6 ∷ 0xc56b3eebfcb190b6
    ∷ 0xe968524f41f998cc ∷ 0x59d47c17d3fd6dcc ∷ 0xbcc928ad3d67e1a7 ∷ 0x0c7506f5af6314a7
    ∷ 0x422aa78bb8c56a1a ∷ 0xf29689d32ac19f1a ∷ 0x178bdd69c45b1371 ∷ 0xa737f331565fe671
    ∷ 0xf22715194de54bf2 ∷ 0x429b3b41dfe1bef2 ∷ 0xa7866ffb317b3299 ∷ 0x173a41a3a37fc799
    ∷ 0x5965e0ddb4d9b924 ∷ 0xe9d9ce8526dd4c24 ∷ 0x0cc49a3fc847c04f ∷ 0xbc78b4675a43354f
    ∷ 0x907bd8c3e70b3d35 ∷ 0x20c7f69b750fc835 ∷ 0xc5daa2219b95445e ∷ 0x75668c790991b15e
    ∷ 0x3b392d071e37cfe3 ∷ 0x8b85035f8c333ae3 ∷ 0x6e9857e562a9b688 ∷ 0xde2479bdf0ad4388
    ∷ 0x369e8eac1839a67c ∷ 0x8622a0f48a3d537c ∷ 0x633ff44e64a7df17 ∷ 0xd383da16f6a32a17
    ∷ 0x9ddc7b68e10554aa ∷ 0x2d6055307301a1aa ∷ 0xc87d018a9d9b2dc1 ∷ 0x78c12fd20f9fd8c1
    ∷ 0x54c24376b2d7d0bb ∷ 0xe47e6d2e20d325bb ∷ 0x01633994ce49a9d0 ∷ 0xb1df17cc5c4d5cd0
    ∷ 0xff80b6b24beb226d ∷ 0x4f3c98ead9efd76d ∷ 0xaa21cc5037755b06 ∷ 0x1a9de208a571ae06
    ∷ 0x9f1a08417d96070a ∷ 0x2fa62619ef92f20a ∷ 0xcabb72a301087e61 ∷ 0x7a075cfb930c8b61
    ∷ 0x3458fd8584aaf5dc ∷ 0x84e4d3dd16ae00dc ∷ 0x61f98767f8348cb7 ∷ 0xd145a93f6a3079b7
    ∷ 0xfd46c59bd77871cd ∷ 0x4dfaebc3457c84cd ∷ 0xa8e7bf79abe608a6 ∷ 0x185b912139e2fda6
    ∷ 0x5604305f2e44831b ∷ 0xe6b81e07bc40761b ∷ 0x03a54abd52dafa70 ∷ 0xb31964e5c0de0f70
    ∷ 0x5ba393f4284aea84 ∷ 0xeb1fbdacba4e1f84 ∷ 0x0e02e91654d493ef ∷ 0xbebec74ec6d066ef
    ∷ 0xf0e16630d1761852 ∷ 0x405d48684372ed52 ∷ 0xa5401cd2ade86139 ∷ 0x15fc328a3fec9439
    ∷ 0x39ff5e2e82a49c43 ∷ 0x8943707610a06943 ∷ 0x6c5e24ccfe3ae528 ∷ 0xdce20a946c3e1028
    ∷ 0x92bdabea7b986e95 ∷ 0x220185b2e99c9b95 ∷ 0xc71cd108070617fe ∷ 0x77a0ff509502e2fe
    ∷ 0x22b019788eb84f7d ∷ 0x920c37201cbcba7d ∷ 0x7711639af2263616 ∷ 0xc7ad4dc26022c316
    ∷ 0x89f2ecbc7784bdab ∷ 0x394ec2e4e58048ab ∷ 0xdc53965e0b1ac4c0 ∷ 0x6cefb806991e31c0
    ∷ 0x40ecd4a2245639ba ∷ 0xf050fafab652ccba ∷ 0x154dae4058c840d1 ∷ 0xa5f18018caccb5d1
    ∷ 0xebae2166dd6acb6c ∷ 0x5b120f3e4f6e3e6c ∷ 0xbe0f5b84a1f4b207 ∷ 0x0eb375dc33f04707
    ∷ 0xe60982cddb64a2f3 ∷ 0x56b5ac95496057f3 ∷ 0xb3a8f82fa7fadb98 ∷ 0x0314d67735fe2e98
    ∷ 0x4d4b770922585025 ∷ 0xfdf75951b05ca525 ∷ 0x18ea0deb5ec6294e ∷ 0xa85623b3ccc2dc4e
    ∷ 0x84554f17718ad434 ∷ 0x34e9614fe38e2134 ∷ 0xd1f435f50d14ad5f ∷ 0x61481bad9f10585f
    ∷ 0x2f17bad388b626e2 ∷ 0x9fab948b1ab2d3e2 ∷ 0x7ab6c031f4285f89 ∷ 0xca0aee69662caa89
    ∷ 0xd0970c61c35d048f ∷ 0x602b22395159f18f ∷ 0x85367683bfc37de4 ∷ 0x358a58db2dc788e4
    ∷ 0x7bd5f9a53a61f659 ∷ 0xcb69d7fda8650359 ∷ 0x2e74834746ff8f32 ∷ 0x9ec8ad1fd4fb7a32
    ∷ 0xb2cbc1bb69b37248 ∷ 0x0277efe3fbb78748 ∷ 0xe76abb59152d0b23 ∷ 0x57d695018729fe23
    ∷ 0x1989347f908f809e ∷ 0xa9351a27028b759e ∷ 0x4c284e9dec11f9f5 ∷ 0xfc9460c57e150cf5
    ∷ 0x142e97d49681e901 ∷ 0xa492b98c04851c01 ∷ 0x418fed36ea1f906a ∷ 0xf133c36e781b656a
    ∷ 0xbf6c62106fbd1bd7 ∷ 0x0fd04c48fdb9eed7 ∷ 0xeacd18f2132362bc ∷ 0x5a7136aa812797bc
    ∷ 0x76725a0e3c6f9fc6 ∷ 0xc6ce7456ae6b6ac6 ∷ 0x23d320ec40f1e6ad ∷ 0x936f0eb4d2f513ad
    ∷ 0xdd30afcac5536d10 ∷ 0x6d8c819257579810 ∷ 0x8891d528b9cd147b ∷ 0x382dfb702bc9e17b
    ∷ 0x6d3d1d5830734cf8 ∷ 0xdd813300a277b9f8 ∷ 0x389c67ba4ced3593 ∷ 0x882049e2dee9c093
    ∷ 0xc67fe89cc94fbe2e ∷ 0x76c3c6c45b4b4b2e ∷ 0x93de927eb5d1c745 ∷ 0x2362bc2627d53245
    ∷ 0x0f61d0829a9d3a3f ∷ 0xbfddfeda0899cf3f ∷ 0x5ac0aa60e6034354 ∷ 0xea7c84387407b654
    ∷ 0xa423254663a1c8e9 ∷ 0x149f0b1ef1a53de9 ∷ 0xf1825fa41f3fb182 ∷ 0x413e71fc8d3b4482
    ∷ 0xa98486ed65afa176 ∷ 0x1938a8b5f7ab5476 ∷ 0xfc25fc0f1931d81d ∷ 0x4c99d2578b352d1d
    ∷ 0x02c673299c9353a0 ∷ 0xb27a5d710e97a6a0 ∷ 0x576709cbe00d2acb ∷ 0xe7db27937209dfcb
    ∷ 0xcbd84b37cf41d7b1 ∷ 0x7b64656f5d4522b1 ∷ 0x9e7931d5b3dfaeda ∷ 0x2ec51f8d21db5bda
    ∷ 0x609abef3367d2567 ∷ 0xd02690aba479d067 ∷ 0x353bc4114ae35c0c ∷ 0x8587ea49d8e7a90c ∷ []
