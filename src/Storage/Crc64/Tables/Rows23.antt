-- ===== src/Storage/Crc64/Tables/Rows23.antt =====
-- The rows 2 and 3 of the table `Crc64MU32` of crypt.cpp, with 256 entries each.
use azure_sdk_for_cpp.Base.{ℕ, List, [], ◌∷◌}

-- The entries from 2 * 256.
unfoldable pub mu32_row2 : List ℕ
mu32_row2 =
    0x0000000000000000 ∷ 0x71b0c13da512335d ∷ 0xe361827b4a2466ba ∷ 0x92d14346ef3655e7
    ∷ 0xf21a22a5ccdf5e1f ∷ 0x83aae39869cd6d42 ∷ 0x117ba0de86fb38a5 ∷ 0x60cb61e323e90bf8
    ∷ 0xd0ed6318c1292f55 ∷ 0xa15da225643b1c08 ∷ 0x338ce1638b0d49ef ∷ 0x423c205e2e1f7ab2
    ∷ 0x22f741bd0df6714a ∷ 0x53478080a8e44217 ∷ 0xc196c3c647d217f0 ∷ 0xb02602fbe2c024ad
    ∷ 0x9503e062dac5cdc1 ∷ 0xe4b3215f7fd7fe9c ∷ 0x7662621990e1ab7b ∷ 0x07d2a32435f39826
    ∷ 0x6719c2c7161a93de ∷ 0x16a903fab308a083 ∷ 0x847840bc5c3ef564 ∷ 0xf5c88181f92cc639
    ∷ 0x45ee837a1bece294 ∷ 0x345e4247befed1c9 ∷ 0xa68f010151c8842e ∷ 0xd73fc03cf4dab773
    ∷ 0xb7f4a1dfd733bc8b ∷ 0xc64460e272218fd6 ∷ 0x549523a49d17da31 ∷ 0x2525e2993805e96c
    ∷ 0x1edee696ed1c08e9 ∷ 0x6f6e27ab480e3bb4 ∷ 0xfdbf64eda7386e53 ∷ 0x8c0fa5d0022a5d0e
    ∷ 0xecc4c43321c356f6 ∷ 0x9d74050e84d165ab ∷ 0x0fa546486be7304c ∷ 0x7e158775cef50311
    ∷ 0xce33858e2c3527bc ∷ 0xbf8344b3892714e1 ∷ 0x2d5207f566114106 ∷ 0x5ce2c6c8c303725b
    ∷ 0x3c29a72be0ea79a3 ∷ 0x4d99661645f84afe ∷ 0xdf482550aace1f19 ∷ 0xaef8e46d0fdc2c44
    ∷ 0x8bdd06f437d9c528 ∷ 0xfa6dc7c992cbf675 ∷ 0x68bc848f7dfda392 ∷ 0x190c45b2d8ef90cf
    ∷ 0x79c72451fb069b37 ∷ 0x0877e56c5e14a86a ∷ 0x9aa6a62ab122fd8d ∷ 0xeb1667171430ced0
    ∷ 0x5b3065ecf6f0ea7d ∷ 0x2a80a4d153e2d920 ∷ 0xb851e797bcd48cc7 ∷ 0xc9e126aa19c6bf9a
    ∷ 0xa92a47493a2fb462 ∷ 0xd89a86749f3d873f ∷ 0x4a4bc532700bd2d8 ∷ 0x3bfb040fd519e185
    ∷ 0x3dbdcd2dda3811d2 ∷ 0x4c0d0c107f2a228f ∷ 0xdedc4f56901c7768 ∷ 0xaf6c8e6b350e4435
    ∷ 0xcfa7ef8816e74fcd ∷ 0xbe172eb5b3f57c90 ∷ 0x2cc66df35cc32977 ∷ 0x5d76accef9d11a2a
    ∷ 0xed50ae351b113e87 ∷ 0x9ce06f08be030dda ∷ 0x0e312c4e5135583d ∷ 0x7f81ed73f4276b60
    ∷ 0x1f4a8c90d7ce6098 ∷ 0x6efa4dad72dc53c5 ∷ 0xfc2b0eeb9dea0622 ∷ 0x8d9bcfd638f8357f
    ∷ 0xa8be2d4f00fddc13 ∷ 0xd90eec72a5efef4e ∷ 0x4bdfaf344ad9baa9 ∷ 0x3a6f6e09efcb89f4
    ∷ 0x5aa40feacc22820c ∷ 0x2b14ced76930b151 ∷ 0xb9c58d918606e4b6 ∷ 0xc8754cac2314d7eb
    ∷ 0x78534e57c1d4f346 ∷ 0x09e38f6a64c6c01b ∷ 0x9b32cc2c8bf095fc ∷ 0xea820d112ee2a6a1
    ∷ 0x8a496cf20d0bad59 ∷ 0xfbf9adcfa8199e04 ∷ 0x6928ee89472fcbe3 ∷ 0x18982fb4e23df8be
    ∷ 0x23632bbb3724193b ∷ 0x52d3ea8692362a66 ∷ 0xc002a9c07d007f81 ∷ 0xb1b268fdd8124cdc
    ∷ 0xd179091efbfb4724 ∷ 0xa0c9c8235ee97479 ∷ 0x32188b65b1df219e ∷ 0x43a84a5814cd12c3
    ∷ 0xf38e48a3f60d366e ∷ 0x823e899e531f0533 ∷ 0x10efcad8bc2950d4 ∷ 0x615f0be5193b6389
    ∷ 0x01946a063ad26871 ∷ 0x7024ab3b9fc05b2c ∷ 0xe2f5e87d70f60ecb ∷ 0x93452940d5e43d96
    ∷ 0xb660cbd9ede1d4fa ∷ 0xc7d00ae448f3e7a7 ∷ 0x550149a2a7c5b240 ∷ 0x24b1889f02d7811d
    ∷ 0x447ae97c213e8ae5 ∷ 0x35ca2841842cb9b8 ∷ 0xa71b6b076b1aec5f ∷ 0xd6abaa3ace08df02
    ∷ 0x668da8c12cc8fbaf ∷ 0x173d69fc89dac8f2 ∷ 0x85ec2aba66ec9d15 ∷ 0xf45ceb87c3feae48
    ∷ 0x94978a64e017a5b0 ∷ 0xe5274b59450596ed ∷ 0x77f6081faa33c30a ∷ 0x0646c9220f21f057
    ∷ 0x7b7b9a5bb47023a4 ∷ 0x0acb5b66116210f9 ∷ 0x981a1820fe54451e ∷ 0xe9aad91d5b467643
    ∷ 0x8961b8fe78af7dbb ∷ 0xf8d179c3ddbd4ee6 ∷ 0x6a003a85328b1b01 ∷ 0x1bb0fbb89799285c
    ∷ 0xab96f94375590cf1 ∷ 0xda26387ed04b3fac ∷ 0x48f77b383f7d6a4b ∷ 0x3947ba059a6f5916
    ∷ 0x598cdbe6b98652ee ∷ 0x283c1adb1c9461b3 ∷ 0xbaed599df3a23454 ∷ 0xcb5d98a056b00709
    ∷ 0xee787a396eb5ee65 ∷ 0x9fc8bb04cba7dd38 ∷ 0x0d19f842249188df ∷ 0x7ca9397f8183bb82
    ∷ 0x1c62589ca26ab07a ∷ 0x6dd299a107788327 ∷ 0xff03dae7e84ed6c0 ∷ 0x8eb31bda4d5ce59d
    ∷ 0x3e951921af9cc130 ∷ 0x4f25d81c0a8ef26d ∷ 0xddf49b5ae5b8a78a ∷ 0xac445a6740aa94d7
    ∷ 0xcc8f3b8463439f2f ∷ 0xbd3ffab9c651ac72 ∷ 0x2feeb9ff2967f995 ∷ 0x5e5e78c28c75cac8
    ∷ 0x65a57ccd596c2b4d ∷ 0x1415bdf0fc7e1810 ∷ 0x86c4feb613484df7 ∷ 0xf7743f8bb65a7eaa
    ∷ 0x97bf5e6895b37552 ∷ 0xe60f9f5530a1460f ∷ 0x74dedc13df9713e8 ∷ 0x056e1d2e7a8520b5
    ∷ 0xb5481fd598450418 ∷ 0xc4f8dee83d573745 ∷ 0x56299daed26162a2 ∷ 0x27995c93777351ff
    ∷ 0x47523d70549a5a07 ∷ 0x36e2fc4df188695a ∷ 0xa433bf0b1ebe3cbd ∷ 0xd5837e36bbac0fe0
    ∷ 0xf0a69caf83a9e68c ∷ 0x81165d9226bbd5d1 ∷ 0x13c71ed4c98d8036 ∷ 0x6277dfe96c9fb36b
    ∷ 0x02bcbe0a4f76b893 ∷ 0x730c7f37ea648bce ∷ 0xe1dd3c710552de29 ∷ 0x906dfd4ca040ed74
    ∷ 0x204bffb74280c9d9 ∷ 0x51fb3e8ae792fa84 ∷ 0xc32a7dcc08a4af63 ∷ 0xb29abcf1adb69c3e
    ∷ 0xd251dd128e5f97c6 ∷ 0xa3e11c2f2b4da49b ∷ 0x31305f69c47bf17c ∷ 0x40809e546169c221
    ∷ 0x46c657766e483276 ∷ 0x3776964bcb5a012b ∷ 0xa5a7d50d246c54cc ∷ 0xd4171430817e6791
    ∷ 0xb4dc75d3a2976c69 ∷ 0xc56cb4ee07855f34 ∷ 0x57bdf7a8e8b30ad3 ∷ 0x260d36954da1398e
    ∷ 0x962b346eaf611d23 ∷ 0xe79bf5530a732e7e ∷ 0x754ab615e5457b99 ∷ 0x04fa7728405748c4
    ∷ 0x643116cb63be433c ∷ 0x1581d7f6c6ac7061 ∷ 0x875094b0299a2586 ∷ 0xf6e0558d8c8816db
    ∷ 0xd3c5b714b48dffb7 ∷ 0xa2757629119fccea ∷ 0x30a4356ffea9990d ∷ 0x4114f4525bbbaa50
    ∷ 0x21df95b17852a1a8 ∷ 0x506f548cdd4092f5 ∷ 0xc2be17ca3276c712 ∷ 0xb30ed6f79764f44f
    ∷ 0x0328d40c75a4d0e2 ∷ 0x72981531d0b6e3bf ∷ 0xe04956773f80b658 ∷ 0x91f9974a9a928505
    ∷ 0xf132f6a9b97b8efd ∷ 0x808237941c69bda0 ∷ 0x125374d2f35fe847 ∷ 0x63e3b5ef564ddb1a
    ∷ 0x5818b1e083543a9f ∷ 0x29a870dd264609c2 ∷ 0xbb79339bc9705c25 ∷ 0xcac9f2a66c626f78
    ∷ 0xaa0293454f8b6480 ∷ 0xdbb25278ea9957dd ∷ 0x4963113e05af023a ∷ 0x38d3d003a0bd3167
    ∷ 0x88f5d2f8427d15ca ∷ 0xf94513c5e76f2697 ∷ 0x6b94508308597370 ∷ 0x1a2491bead4b402d
    ∷ 0x7aeff05d8ea24bd5 ∷ 0x0b5f31602bb07888 ∷ 0x998e7226c4862d6f ∷ 0xe83eb31b61941e32
    ∷ 0xcd1b51825991f75e ∷ 0xbcab90bffc83c403 ∷ 0x2e7ad3f913b591e4 ∷ 0x5fca12c4b6a7a2b9
    ∷ 0x3f017327954ea941 ∷ 0x4eb1b21a305c9a1c ∷ 0xdc60f15cdf6acffb ∷ 0xadd030617a78fca6
    ∷ 0x1df6329a98b8d80b ∷ 0x6c46f3a73daaeb56 ∷ 0xfe97b0e1d29cbeb1 ∷ 0x8f2771dc778e8dec
    ∷ 0xefec103f54678614 ∷ 0x9e5cd102f175b549 ∷ 0x0c8d92441e43e0ae ∷ 0x7d3d5379bb51d3f3 ∷ []

-- The entries from 3 * 256.
unfoldable pub mu32_row3 : List ℕ
mu32_row3 =
    0x0000000000000000 ∷ 0xbfdb6c480f15915e ∷ 0x4b6ffec346bcb1d7 ∷ 0xf4b4928b49a92089
    ∷ 0x96dffd868d7963ae ∷ 0x290491ce826cf2f0 ∷ 0xddb00345cbc5d279 ∷ 0x626b6f0dc4d04327
    ∷ 0x1966dd5e42655437 ∷ 0xa6bdb1164d70c569 ∷ 0x5209239d04d9e5e0 ∷ 0xedd24fd50bcc74be
    ∷ 0x8fb920d8cf1c3799 ∷ 0x30624c90c009a6c7 ∷ 0xc4d6de1b89a0864e ∷ 0x7b0db25386b51710
    ∷ 0x32cdbabc84caa86e ∷ 0x8d16d6f48bdf3930 ∷ 0x79a2447fc27619b9 ∷ 0xc6792837cd6388e7
    ∷ 0xa412473a09b3cbc0 ∷ 0x1bc92b7206a65a9e ∷ 0xef7db9f94f0f7a17 ∷ 0x50a6d5b1401aeb49
    ∷ 0x2bab67e2c6affc59 ∷ 0x94700baac9ba6d07 ∷ 0x60c4992180134d8e ∷ 0xdf1ff5698f06dcd0
    ∷ 0xbd749a644bd69ff7 ∷ 0x02aff62c44c30ea9 ∷ 0xf61b64a70d6a2e20 ∷ 0x49c008ef027fbf7e
    ∷ 0x659b7579099550dc ∷ 0xda4019310680c182 ∷ 0x2ef48bba4f29e10b ∷ 0x912fe7f2403c7055
    ∷ 0xf34488ff84ec3372 ∷ 0x4c9fe4b78bf9a22c ∷ 0xb82b763cc25082a5 ∷ 0x07f01a74cd4513fb
    ∷ 0x7cfda8274bf004eb ∷ 0xc326c46f44e595b5 ∷ 0x379256e40d4cb53c ∷ 0x88493aac02592462
    ∷ 0xea2255a1c6896745 ∷ 0x55f939e9c99cf61b ∷ 0xa14dab628035d692 ∷ 0x1e96c72a8f2047cc
    ∷ 0x5756cfc58d5ff8b2 ∷ 0xe88da38d824a69ec ∷ 0x1c393106cbe34965 ∷ 0xa3e25d4ec4f6d83b
    ∷ 0xc189324300269b1c ∷ 0x7e525e0b0f330a42 ∷ 0x8ae6cc80469a2acb ∷ 0x353da0c8498fbb95
    ∷ 0x4e30129bcf3aac85 ∷ 0xf1eb7ed3c02f3ddb ∷ 0x055fec5889861d52 ∷ 0xba84801086938c0c
    ∷ 0xd8efef1d4243cf2b ∷ 0x673483554d565e75 ∷ 0x938011de04ff7efc ∷ 0x2c5b7d960beaefa2
    ∷ 0xcb36eaf2132aa1b8 ∷ 0x74ed86ba1c3f30e6 ∷ 0x805914315596106f ∷ 0x3f8278795a838131
    ∷ 0x5de917749e53c216 ∷ 0xe2327b3c91465348 ∷ 0x1686e9b7d8ef73c1 ∷ 0xa95d85ffd7fae29f
    ∷ 0xd25037ac514ff58f ∷ 0x6d8b5be45e5a64d1 ∷ 0x993fc96f17f34458 ∷ 0x26e4a52718e6d506
    ∷ 0x448fca2adc369621 ∷ 0xfb54a662d323077f ∷ 0x0fe034e99a8a27f6 ∷ 0xb03b58a1959fb6a8
    ∷ 0xf9fb504e97e009d6 ∷ 0x46203c0698f59888 ∷ 0xb294ae8dd15cb801 ∷ 0x0d4fc2c5de49295f
    ∷ 0x6f24adc81a996a78 ∷ 0xd0ffc180158cfb26 ∷ 0x244b530b5c25dbaf ∷ 0x9b903f4353304af1
    ∷ 0xe09d8d10d5855de1 ∷ 0x5f46e158da90ccbf ∷ 0xabf273d39339ec36 ∷ 0x14291f9b9c2c7d68
    ∷ 0x7642709658fc3e4f ∷ 0xc9991cde57e9af11 ∷ 0x3d2d8e551e408f98 ∷ 0x82f6e21d11551ec6
    ∷ 0xaead9f8b1abff164 ∷ 0x1176f3c315aa603a ∷ 0xe5c261485c0340b3 ∷ 0x5a190d005316d1ed
    ∷ 0x3872620d97c692ca ∷ 0x87a90e4598d30394 ∷ 0x731d9cced17a231d ∷ 0xccc6f086de6fb243
    ∷ 0xb7cb42d558daa553 ∷ 0x08102e9d57cf340d ∷ 0xfca4bc161e661484 ∷ 0x437fd05e117385da
    ∷ 0x2114bf53d5a3c6fd ∷ 0x9ecfd31bdab657a3 ∷ 0x6a7b4190931f772a ∷ 0xd5a02dd89c0ae674
    ∷ 0x9c6025379e75590a ∷ 0x23bb497f9160c854 ∷ 0xd70fdbf4d8c9e8dd ∷ 0x68d4b7bcd7dc7983
    ∷ 0x0abfd8b1130c3aa4 ∷ 0xb564b4f91c19abfa ∷ 0x41d0267255b08b73 ∷ 0xfe0b4a3a5aa51a2d
    ∷ 0x8506f869dc100d3d ∷ 0x3add9421d3059c63 ∷ 0xce6906aa9aacbcea ∷ 0x71b26ae295b92db4
    ∷ 0x13d905ef51696e93 ∷ 0xac0269a75e7cffcd ∷ 0x58b6fb2c17d5df44 ∷ 0xe76d976418c04e1a
    ∷ 0xa2b4f3b77ec2d01b ∷ 0x1d6f9fff71d74145 ∷ 0xe9db0d74387e61cc ∷ 0x5600613c376bf092
    ∷ 0x346b0e31f3bbb3b5 ∷ 0x8bb06279fcae22eb ∷ 0x7f04f0f2b5070262 ∷ 0xc0df9cbaba12933c
    ∷ 0xbbd22ee93ca7842c ∷ 0x040942a133b21572 ∷ 0xf0bdd02a7a1b35fb ∷ 0x4f66bc62750ea4a5
    ∷ 0x2d0dd36fb1dee782 ∷ 0x92d6bf27becb76dc ∷ 0x66622dacf7625655 ∷ 0xd9b941e4f877c70b
    ∷ 0x9079490bfa087875 ∷ 0x2fa22543f51de92b ∷ 0xdb16b7c8bcb4c9a2 ∷ 0x64cddb80b3a158fc
    ∷ 0x06a6b48d77711bdb ∷ 0xb97dd8c578648a85 ∷ 0x4dc94a4e31cdaa0c ∷ 0xf21226063ed83b52
    ∷ 0x891f9455b86d2c42 ∷ 0x36c4f81db778bd1c ∷ 0xc2706a96fed19d95 ∷ 0x7dab06def1c40ccb
    ∷ 0x1fc069d335144fec ∷ 0xa01b059b3a01deb2 ∷ 0x54af971073a8fe3b ∷ 0xeb74fb587cbd6f65
    ∷ 0xc72f86ce775780c7 ∷ 0x78f4ea8678421199 ∷ 0x8c40780d31eb3110 ∷ 0x339b14453efea04e
    ∷ 0x51f07b48fa2ee369 ∷ 0xee2b1700f53b7237 ∷ 0x1a9f858bbc9252be ∷ 0xa544e9c3b387c3e0
    ∷ 0xde495b903532d4f0 ∷ 0x619237d83a2745ae ∷ 0x9526a553738e6527 ∷ 0x2afdc91b7c9bf479
    ∷ 0x4896a616b84bb75e ∷ 0xf74dca5eb75e2600 ∷ 0x03f958d5fef70689 ∷ 0xbc22349df1e297d7
    ∷ 0xf5e23c72f39d28a9 ∷ 0x4a39503afc88b9f7 ∷ 0xbe8dc2b1b521997e ∷ 0x0156aef9ba340820
    ∷ 0x633dc1f47ee44b07 ∷ 0xdce6adbc71f1da59 ∷ 0x28523f373858fad0 ∷ 0x9789537f374d6b8e
    ∷ 0xec84e12cb1f87c9e ∷ 0x535f8d64beededc0 ∷ 0xa7eb1feff744cd49 ∷ 0x183073a7f8515c17
    ∷ 0x7a5b1caa3c811f30 ∷ 0xc58070e233948e6e ∷ 0x3134e2697a3daee7 ∷ 0x8eef8e2175283fb9
    ∷ 0x698219456de871a3 ∷ 0xd659750d62fde0fd ∷ 0x22ede7862b54c074 ∷ 0x9d368bce2441512a
    ∷ 0xff5de4c3e091120d ∷ 0x4086888bef848353 ∷ 0xb4321a00a62da3da ∷ 0x0be97648a9383284
    ∷ 0x70e4c41b2f8d2594 ∷ 0xcf3fa8532098b4ca ∷ 0x3b8b3ad869319443 ∷ 0x845056906624051d
    ∷ 0xe63b399da2f4463a ∷ 0x59e055d5ade1d764 ∷ 0xad54c75ee448f7ed ∷ 0x128fab16eb5d66b3
    ∷ 0x5b4fa3f9e922d9cd ∷ 0xe494cfb1e6374893 ∷ 0x10205d3aaf9e681a ∷ 0xaffb3172a08bf944
    ∷ 0xcd905e7f645bba63 ∷ 0x724b32376b4e2b3d ∷ 0x86ffa0bc22e70bb4 ∷ 0x3924ccf42df29aea
    ∷ 0x42297ea7ab478dfa ∷ 0xfdf212efa4521ca4 ∷ 0x09468064edfb3c2d ∷ 0xb69dec2ce2eead73
    ∷ 0xd4f68321263eee54 ∷ 0x6b2def69292b7f0a ∷ 0x9f997de260825f83 ∷ 0x204211aa6f97cedd
    ∷ 0x0c196c3c647d217f ∷ 0xb3c200746b68b021 ∷ 0x477692ff22c190a8 ∷ 0xf8adfeb72dd401f6
    ∷ 0x9ac691bae90442d1 ∷ 0x251dfdf2e611d38f ∷ 0xd1a96f79afb8f306 ∷ 0x6e720331a0ad6258
    ∷ 0x157fb16226187548 ∷ 0xaaa4dd2a290de416 ∷ 0x5e104fa160a4c49f ∷ 0xe1cb23e96fb155c1
    ∷ 0x83a04ce4ab6116e6 ∷ 0x3c7b20aca47487b8 ∷ 0xc8cfb227eddda731 ∷ 0x7714de6fe2c8366f
    ∷ 0x3ed4d680e0b78911 ∷ 0x810fbac8efa2184f ∷ 0x75bb2843a60b38c6 ∷ 0xca60440ba91ea998
    ∷ 0xa80b2b066dceeabf ∷ 0x17d0474e62db7be1 ∷ 0xe364d5c52b725b68 ∷ 0x5cbfb98d2467ca36
    ∷ 0x27b20bdea2d2dd26 ∷ 0x98696796adc74c78 ∷ 0x6cddf51de46e6cf1 ∷ 0xd3069955eb7bfdaf
    ∷ 0xb16df6582fabbe88 ∷ 0x0eb69a1020be2fd6 ∷ 0xfa02089b69170f5f ∷ 0x45d964d366029e01 ∷ []
